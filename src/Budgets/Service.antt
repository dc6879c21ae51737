-- ===== src/Budgets/Service.antt =====
-- budgets/service.py: the methods of `BudgetService`.
use ats_onework.Prelude.{
  ℕ, suc, Option, none, some, List, [], ◌∷◌, ◌&&◌, ◌||◌, ◌==◌, leb, not, is_some, if◌then◌else◌,
}
use ats_onework.Exec.{Exec, Error, pure, raise, gets, or_raise, raise_if, ◌>>=◌, ◌>>◌}
use ats_onework.Schema.{Db, lit, num, number, decimal}
use ats_onework.Tenant.{require_member, require_admin}
use ats_onework.Audit.{log}
use ats_onework.Budgets.Repository.{
  BudgetRow, insert_budget, get_budget, list_by_window, update_budget_row, or_current,
}

unfoldable pub create_budget : ℕ → ℕ → ℕ → ℕ → ℕ → Exec Db BudgetRow
create_budget actor_id organization_id amount start_date end_date = do
  require_admin actor_id organization_id
  raise_if (leb end_date start_date) Error.validation
  row ← insert_budget amount actor_id organization_id start_date end_date
  log (some actor_id) (some organization_id) (lit "budget.create" ∷ []) "budgets"
      (num row.budget.budget_id) none
      (some (("amount", decimal amount) ∷ ("organization_id", number organization_id) ∷ []))
  pure row

-- What `update_budget` does with the current row, some column being set.
unfoldable pub write_budget :
    ℕ → ℕ → ℕ → Option ℕ → Option ℕ → Option ℕ → BudgetRow → Exec Db BudgetRow
write_budget actor_id organization_id budget_id amount start_date end_date current = do
  found ← update_budget_row budget_id organization_id amount start_date end_date
  row ← or_raise found Error.assertion
  log (some actor_id) (some organization_id) (lit "budget.update" ∷ []) "budgets" (num budget_id)
      (some (("amount", decimal current.budget.amount) ∷ []))
      (some (("amount", decimal row.budget.amount) ∷ []))
  pure row

-- A PATCH that sets nothing writes nothing.
unfoldable pub write_or_keep :
    ℕ → ℕ → ℕ → Option ℕ → Option ℕ → Option ℕ → BudgetRow → Exec Db BudgetRow
write_or_keep actor_id organization_id budget_id amount start_date end_date current =
    if not (is_some amount || is_some start_date || is_some end_date)
    then pure current
    else write_budget actor_id organization_id budget_id amount start_date end_date current

unfoldable pub update_budget : ℕ → ℕ → ℕ → Option ℕ → Option ℕ → Option ℕ → Exec Db BudgetRow
update_budget actor_id organization_id budget_id amount start_date end_date = do
  require_admin actor_id organization_id
  found ← gets (get_budget budget_id organization_id)
  current ← or_raise found Error.not_found
  raise_if (not (current.budget.organization_id == organization_id)) Error.not_found
  raise_if
      (leb (or_current end_date current.budget.end_date)
        (or_current start_date current.budget.start_date))
      Error.validation
  write_or_keep actor_id organization_id budget_id amount start_date end_date current

-- A month that the pattern `\d{4}-\d{2}` has matched, as its two numbers, or a text that it has not.
pub data Month : Type 0 where
  malformed : Month
  year_month : ℕ → ℕ → Month

-- `first_day year month` is `date(year, month, 1)` as a day number, `none` where it raises.
module _ (first_day : ℕ → ℕ → Option ℕ) where
  -- The first day of the month that follows.
  abbrev pub next_month : ℕ → ℕ → Option ℕ
  next_month year mon = if mon == 12 then first_day (suc year) 1 else first_day year (suc mon)

  -- `_month_window` of a month that has the pattern
  abbrev pub window_of : ℕ → ℕ → Exec Db (Option ℕ × Option ℕ)
  window_of year mon = do
    raise_if (not (leb 1 mon && leb mon 12)) Error.validation
    start ← or_raise (first_day year mon) Error.value_error
    end ← or_raise (next_month year mon) Error.value_error
    pure (some start, some end)

  -- `_month_window`
  unfoldable pub month_window : Option Month → Exec Db (Option ℕ × Option ℕ)
  month_window none = pure (none, none)
  month_window (some malformed) = raise Error.validation
  month_window (some (year_month year mon)) = window_of year mon

  unfoldable pub list_budgets : ℕ → ℕ → Option Month → ℕ → Option ℕ → Exec Db (List BudgetRow)
  list_budgets employee_id organization_id month limit before_id = do
    require_member employee_id organization_id
    window ← month_window month
    gets (list_by_window organization_id window.0 window.1 limit before_id)
