-- ===== src/Budgets/Repository.antt =====
-- budgets/repository.py over the tables. Dates are day numbers.
use ats_onework.Prelude.{
  ℕ, Bool, true, false, Option, none, some, List, [], ◌∷◌, ◌+◌, ◌&&◌, ◌||◌, ◌==◌, ltb, leb, not,
  if◌then◌else◌, any, find, select, update, is_some, map,
}
use ats_onework.Exec.{Exec, Error, ok, err}
use ats_onework.Constants.{ExpenseStatus, eq_expense}
use ats_onework.Schema.{Db, Budget, Project, Expense, insert_row, set_rows}
use ats_onework.Notifications.{before}
use ats_onework.Paging.{newest}

-- A row that the reads return, with `spent` of `_SPENT_EXPR`.
pub record BudgetRow : Type 0 where
  pub budget : Budget
  pub spent : ℕ

abbrev pub project_budget : Option Project → ℕ → Bool
project_budget none budget_id = false
project_budget (some p) budget_id = p.budget_id == budget_id

-- Whether an expense counts against the budget. The dates of a budget are NOT NULL.
abbrev pub counts_against : List Project → Budget → Expense → Bool
counts_against projects b e =
    project_budget (find (λ p. p.project_id == e.project_id) projects) b.budget_id
    && (eq_expense e.status ExpenseStatus.approved || eq_expense e.status ExpenseStatus.reimbursed)
    && (leb b.start_date e.expense_date && leb e.expense_date b.end_date)

-- SUM, and 0 where there is no row
abbrev pub sum_amounts : List Expense → ℕ
sum_amounts [] = 0
sum_amounts (e ∷ es) = e.amount + sum_amounts es

unfoldable pub spent_of : Budget → Db → ℕ
spent_of b d = sum_amounts (select (counts_against d.projects b) d.expenses.rows)

abbrev pub with_spent : Db → Budget → BudgetRow
with_spent d b = record { budget = b; spent = spent_of b d }

-- The CHECKs of the table: `amount > 0` and `chk_budget_dates`.
abbrev pub budget_checks : Budget → Bool
budget_checks b = ltb 0 b.amount && ltb b.start_date b.end_date

abbrev pub new_budget : ℕ → ℕ → ℕ → ℕ → ℕ → ℕ → Budget
new_budget amount employee_id organization_id start_date end_date id = record {
  budget_id = id;
  amount = amount;
  employee_id = employee_id;
  organization_id = organization_id;
  start_date = start_date;
  end_date = end_date;
}

unfoldable pub insert_budget : ℕ → ℕ → ℕ → ℕ → ℕ → Exec Db BudgetRow
insert_budget amount employee_id organization_id start_date end_date d =
    let row : ℕ → Budget = new_budget amount employee_id organization_id start_date end_date in
    if budget_checks (row d.budgets.next_id)
    then (
      ok (with_spent d (row d.budgets.next_id)),
      record d { budgets = insert_row row d.budgets },
    )
    else (err Error.validation, d)

abbrev pub is_budget : ℕ → ℕ → Budget → Bool
is_budget budget_id organization_id b =
    b.budget_id == budget_id && b.organization_id == organization_id

abbrev pub spent_found : Db → Option Budget → Option BudgetRow
spent_found d none = none
spent_found d (some b) = some (with_spent d b)

unfoldable pub get_budget : ℕ → ℕ → Db → Option BudgetRow
get_budget budget_id organization_id d =
    spent_found d (find (is_budget budget_id organization_id) d.budgets.rows)

-- `%s::date IS NULL OR ...`: the budget's period overlaps the window, whose end is the first day
-- behind it.
abbrev pub ends_from : Option ℕ → Budget → Bool
ends_from none b = true
ends_from (some day) b = leb day b.end_date

abbrev pub starts_before : Option ℕ → Budget → Bool
starts_before none b = true
starts_before (some day) b = ltb b.start_date day

abbrev pub in_window : ℕ → Option ℕ → Option ℕ → Option ℕ → Budget → Bool
in_window organization_id range_start range_end before_id b =
    b.organization_id == organization_id
    && ends_from range_start b
    && starts_before range_end b
    && before before_id b.budget_id

unfoldable pub list_by_window : ℕ → Option ℕ → Option ℕ → ℕ → Option ℕ → Db → List BudgetRow
list_by_window organization_id range_start range_end limit before_id d = map (with_spent d) (
    newest (λ b. b.budget_id) limit
      (select (in_window organization_id range_start range_end before_id) d.budgets.rows))

abbrev pub or_current : Option ℕ → ℕ → ℕ
or_current none old = old
or_current (some new) old = new

abbrev pub changed : Option ℕ → Option ℕ → Option ℕ → Budget → Budget
changed amount start_date end_date b = record b {
  amount = or_current amount b.amount;
  start_date = or_current start_date b.start_date;
  end_date = or_current end_date b.end_date;
}

-- Whether some row that the UPDATE would write fails the CHECKs.
abbrev pub breaks_checks : ℕ → ℕ → Option ℕ → Option ℕ → Option ℕ → Budget → Bool
breaks_checks budget_id organization_id amount start_date end_date b =
    is_budget budget_id organization_id b
    && not (budget_checks (changed amount start_date end_date b))

unfoldable pub update_budget_row :
    ℕ → ℕ → Option ℕ → Option ℕ → Option ℕ → Exec Db (Option BudgetRow)
update_budget_row budget_id organization_id amount start_date end_date d =
    let rows =
      update (is_budget budget_id organization_id) (changed amount start_date end_date)
        d.budgets.rows in
    if is_some amount || is_some start_date || is_some end_date
    then if any (breaks_checks budget_id organization_id amount start_date end_date) d.budgets.rows
      then (err Error.validation, d)
      else (
        ok (spent_found d (find (is_budget budget_id organization_id) rows)),
        record d { budgets = set_rows rows d.budgets },
      )
    else (ok (get_budget budget_id organization_id d), d)
