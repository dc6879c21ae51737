-- ===== src/Tests/Budgets.antt =====
-- The theorems on budgets, uploads and slugs at concrete values.
use mathlib.Core.Logic.{◌↔◌}
use Prim.Native.String.{[] as no_text}
use ats_onework.Prelude.{ℕ, ◌<◌, ◌≤◌, true, none, some, [], ◌∷◌, ◌≡◌, ◌⊎◌, find, arith}
use ats_onework.Prelude.Text.{text_eq}
use ats_onework.Exec.{ok}
use ats_onework.Schema.{Db, Budget}
use ats_onework.Notifications.{before}
use ats_onework.Budgets.Repository.{BudgetRow, in_window, new_budget}
use ats_onework.Budgets.Service.{update_budget}
use ats_onework.Budgets.Dates.{in_window_overlap}
use ats_onework.Uploads.{Bytes, jpeg_file, verify_upload, content_type_extensions}
use ats_onework.Uploads.Formats.{Format, IsFormat, file_of, verify_upload_decides}
use ats_onework.Organizations.Slugs.{slugify}
use ats_onework.Organizations.SlugForm.{matches, slugify-matches}
use ats_onework.Tests.Office.{office}

abbrev extended : Db
extended = (update_budget 2 1 1 none none (some 120) office).1

abbrev revised : BudgetRow
revised = record { budget = new_budget 90000 1 1 0 120 1; spent = 2500 }

abbrev quarter : Budget
quarter = new_budget 5000 1 1 10 99 7

in_window_overlap_example : (in_window 1 (some 31) (some 59) none quarter ≡ true) ↔ (
    (quarter.organization_id ≡ 1)
    × (before none quarter.budget_id ≡ true)
    × ((day : ℕ) × ((10 ≤ day) × (day ≤ 99) × (31 ≤ day) × (day < 59))))
in_window_overlap_example =
    in_window_overlap 1 31 59 none quarter (omega arith) (omega arith, omega arith)

abbrev photo : Bytes
photo = 255 ∷ 216 ∷ 255 ∷ 224 ∷ []

verify_upload_decides_example : (verify_upload photo office ≡ (ok jpeg_file, office)) ↔ (
    (f : Format) × IsFormat f photo
    × (jpeg_file ≡ file_of f)
    × (find (λ p. text_eq p.0 jpeg_file.content_type) content_type_extensions
        ≡ some (jpeg_file.content_type, jpeg_file.extension)))
verify_upload_decides_example = verify_upload_decides photo jpeg_file office

slugify-matches_example :
    (slugify (λ s. s) " acme & co. " ≡ no_text)
    ⊎ (matches true (slugify (λ s. s) " acme & co. ") ≡ true)
slugify-matches_example = slugify-matches (λ s. s) " acme & co. "
