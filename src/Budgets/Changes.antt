-- ===== src/Budgets/Changes.antt =====
-- What a change of a budget leaves behind.
use ats_onework.Prelude.{ℕ, ◌<◌, true, false, Option, some, ◌≡◌, leb, find, Memᴰ}
use ats_onework.Schema.{Db, Budget}
use ats_onework.Permissions.Holds.{IsSeat}
use ats_onework.Budgets.Repository.{BudgetRow, is_budget, or_current}
use ats_onework.Budgets.Rewrites.{Rewritten}

-- What `update_budget` has checked, and what it returns and leaves behind.
pub record Revised (actor org id : ℕ) (amount start end : Option ℕ) (r : BudgetRow) (d d' : Db)
    : Type 0 where
  pub editor : IsSeat actor org true d
  pub old : Budget
  pub was_row : Memᴰ old d.budgets.rows
  pub of_key : old.budget_id ≡ id
  pub of_organization : old.organization_id ≡ org
  pub ordered : r.budget.start_date < r.budget.end_date
  pub rewritten : Rewritten org id amount start end old r.budget d d'

module _ (actor org id : ℕ) (amount start end : Option ℕ) (d : Db) (old : Budget)
    (located : find (is_budget id org) d.budgets.rows ≡ some old)
    (ordered : leb (or_current end old.end_date) (or_current start old.start_date) ≡ false) where
  abbrev Outcome : BudgetRow → Db → Type 0
  Outcome r d' =
      (r.budget.start_date < r.budget.end_date)
      × Rewritten org id amount start end old r.budget d d'
