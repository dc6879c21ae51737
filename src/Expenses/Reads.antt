-- ===== src/Expenses/Reads.antt =====
-- expenses/service.py: `get`, `list` and `list_pending` of `ExpenseService`.
use ats_onework.Prelude.{ℕ, Option, none, some, List, ◌&&◌, not, ◌==◌, if◌then◌else◌}
use ats_onework.Exec.{Exec, Error, pure, gets, or_raise, ◌>>=◌, ◌>>◌, raise_if}
use ats_onework.Constants.{ExpenseStatus}
use ats_onework.Schema.{Db}
use ats_onework.Tenant.{require_member, require_admin}
use ats_onework.Permissions.{has_permission}
use ats_onework.Expenses.Repository.{
  JoinedExpense, get_by_id, list_media, list_by_org, list_pending,
}
use ats_onework.Expenses.Response.{ExpenseResponse}

unfoldable pub get : ℕ → ℕ → ℕ → Exec Db ExpenseResponse
get employee_id organization_id expense_id = do
  require_member employee_id organization_id
  found ← gets (get_by_id expense_id organization_id)
  row ← or_raise found Error.not_found
  can_read_all ← gets (has_permission employee_id organization_id "expense.read_all")
  raise_if (not (row.employee_id == employee_id) && not can_read_all) Error.not_found
  media ← gets (list_media expense_id organization_id)
  pure (record { row = row; receipts = media })

-- `ExpenseService.list`
unfoldable pub list_expenses :
    ℕ → ℕ → Option ExpenseStatus → Option ℕ → Option ℕ → ℕ → Option ℕ → Exec Db (List JoinedExpense)
list_expenses employee_id organization_id status from_date to_date limit before_id = do
  require_member employee_id organization_id
  can_read_all ← gets (has_permission employee_id organization_id "expense.read_all")
  gets (
      list_by_org organization_id status from_date to_date limit before_id
        (if can_read_all then none else some employee_id))

-- `ExpenseService.list_pending`
unfoldable pub review_queue : ℕ → ℕ → ℕ → Option ℕ → Exec Db (List JoinedExpense)
review_queue employee_id organization_id limit before_id = do
  require_admin employee_id organization_id
  gets (list_pending organization_id limit before_id)
