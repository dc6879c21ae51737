-- ===== src/Tests/Members.antt =====
-- The theorem on the administrators of an organization at the office.
use ats_onework.Prelude.{true, none, List, [], ◌∷◌, arith}
use ats_onework.Prelude.Text.{text_le}
use ats_onework.Organizations.Admins.{IsManaged}
use ats_onework.Organizations.History.{
  Request, found_organization, join, leave, run_members, run_members-IsManaged,
}
use ats_onework.Tests.Office.{office}

office-IsManaged : IsManaged 1 office.memberships
office-IsManaged = record { unique = λ o e. ground arith; managed = omega arith }

-- A member joins as an administrator, both administrators leave, and one comes back.
abbrev turnover : List Request
turnover =
    record { at = 40; actor = 2; call = join 1 3 true [] }
    ∷ record { at = 41; actor = 3; call = leave 1 2 }
    ∷ record { at = 42; actor = 3; call = leave 1 3 }
    ∷ record { at = 43; actor = 2; call = found_organization "Acme" none none }
    ∷ []

run_members-IsManaged_example :
    IsManaged 1 (run_members (λ s. s) text_le turnover office).memberships
run_members-IsManaged_example =
    run_members-IsManaged (λ s. s) text_le 1 turnover office office-IsManaged
