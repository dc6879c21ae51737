-- ===== src/Budgets/Dates.antt =====
-- What the window of a month selects.
use mathlib.Core.Logic.{◌↔◌}
use ats_onework.Prelude.{ℕ, ◌<◌, ◌≤◌, true, Option, some, ◌≡◌, leb, Bool-cases, inl, inr, arith}
use ats_onework.Schema.{Budget}
use ats_onework.Notifications.{before}
use ats_onework.Budgets.Repository.{in_window}

-- A positive amount, and a period of more than one day.
abbrev pub IsDated : Budget → Type 0
IsDated b = (0 < b.amount) × (b.start_date < b.end_date)

-- For a window of at least one day and a budget that ends after it starts, the query selects the
-- budget exactly if it is the organization's, precedes the cursor, and some day belongs both to the
-- budget and to the window, whose last day is not its own.
pub in_window_overlap :
    (org first next : ℕ) (before_id : Option ℕ) (b : Budget)
    → first < next
    → IsDated b
    → (in_window org (some first) (some next) before_id b ≡ true) ↔ (
        (b.organization_id ≡ org)
        × (before before_id b.budget_id ≡ true)
        × ((day : ℕ) × ((b.start_date ≤ day) × (day ≤ b.end_date) × (first ≤ day) × (day < next))))
in_window_overlap org first next before_id b ordered dated = (
  λ h.
      let here : b.organization_id ≡ org = ground (arith, h) in
      let early : before before_id b.budget_id ≡ true = ground (arith, h) in
      let ends : first ≤ b.end_date = ground (arith, h) in
      let starts : b.start_date < next = ground (arith, h) in
      (
        here,
        early,
        elim (Bool-cases (leb b.start_date first)) [
          | inl e ↦ (first, (ground (arith, e), ends, omega arith, ordered))
          | inr e ↦ (b.start_date, (omega arith, omega (arith, dated.1), ground (arith, e), starts))
        ],
      ),
  λ p. let (day, (from, to, after, within)) = p.2 in rw (p.0, p.1) (ground arith),
)
