-- ===== src/Reimbursements/Repository.antt =====
-- reimbursements/repository.py over the tables, with the constraints of backend/migrations.
use ats_onework.Prelude.{
  ℕ, String, Bool, Option, none, some, List, ◌&&◌, ◌==◌, ltb, if◌then◌else◌, find, select, update,
  is_some,
}
use ats_onework.Exec.{Exec, Error, ok, err}
use ats_onework.Constants.{ExpenseStatus, ReimbursementStatus, eq_expense, eq_reimbursement}
use ats_onework.Schema.{Db, Expense, Reimbursement, insert_row, set_rows}
use ats_onework.Notifications.{before}
use ats_onework.Paging.{newest}
use ats_onework.Expenses.Repository.{has_key, given, update_expense}

abbrev pub get_expense : ℕ → ℕ → Db → Option Expense
get_expense expense_id org_id d = find (has_key expense_id org_id) d.expenses.rows

abbrev pub has_reimbursement_key : ℕ → ℕ → Reimbursement → Bool
has_reimbursement_key reimbursement_id org_id r =
    r.reimbursement_id == reimbursement_id && r.organization_id == org_id

-- `get_by_id`, and `get_by_id_for_update`, which also locks the row
abbrev pub get_by_id : ℕ → ℕ → Db → Option Reimbursement
get_by_id reimbursement_id org_id d =
    find (has_reimbursement_key reimbursement_id org_id) d.reimbursements.rows

abbrev pub for_expense : ℕ → Reimbursement → Bool
for_expense expense_id r = r.expense_id == expense_id

abbrev pub new_reimbursement : ℕ → ℕ → ℕ → ℕ → ℕ → Option String → ℕ → Reimbursement
new_reimbursement now expense_id employee_id organization_id total_amount reference id = record {
  reimbursement_id = id;
  expense_id = expense_id;
  employee_id = employee_id;
  organization_id = organization_id;
  total_amount = total_amount;
  payment_reference = reference;
  payment_receipt_url = none;
  status = ReimbursementStatus.pending;
  paid_at = none;
  created_at = now;
  updated_at = now;
}

-- CHECK (total_amount > 0), and then `expense_id ... UNIQUE`.
unfoldable pub create : ℕ → ℕ → ℕ → ℕ → Option String → Exec Db Reimbursement
create expense_id employee_id organization_id total_amount payment_reference d =
    let row : ℕ → Reimbursement =
      new_reimbursement d.now expense_id employee_id organization_id total_amount
        payment_reference in
    if ltb 0 total_amount
    then if is_some (find (for_expense expense_id) d.reimbursements.rows)
      then (err Error.conflict, d)
      else (
        ok (row d.reimbursements.next_id),
        record d { reimbursements = insert_row row d.reimbursements },
      )
    else (err Error.validation, d)

abbrev pub listed : ℕ → Option ReimbursementStatus → Option ℕ → Option ℕ → Reimbursement → Bool
listed organization_id status before_id employee_id r =
    r.organization_id == organization_id
    && given status (λ s. eq_reimbursement r.status s)
    && before before_id r.reimbursement_id
    && given employee_id (λ i. r.employee_id == i)

unfoldable pub list_by_org :
    ℕ → Option ReimbursementStatus → ℕ → Option ℕ → Option ℕ → Db → List Reimbursement
list_by_org organization_id status limit before_id employee_id d =
    newest (λ r. r.reimbursement_id) limit
      (select (listed organization_id status before_id employee_id) d.reimbursements.rows)

abbrev pub has_id : ℕ → Reimbursement → Bool
has_id reimbursement_id r = r.reimbursement_id == reimbursement_id

abbrev coalesce : Option String → Option String → Option String
coalesce none old = old
coalesce (some new) old = some new

-- The SET clause of `update_transition`.
abbrev pub moved_to : ReimbursementStatus → Option String → ℕ → Reimbursement → Reimbursement
moved_to status payment_reference now r =
    if eq_reimbursement status ReimbursementStatus.paid
    then record r {
      status = status;
      payment_reference = payment_reference;
      paid_at = some now;
      updated_at = now;
    }
    else record r {
      status = status;
      payment_reference = coalesce payment_reference r.payment_reference;
      updated_at = now;
    }

abbrev pub with_receipt : String → ℕ → Reimbursement → Reimbursement
with_receipt url now r = record r { payment_receipt_url = some url; updated_at = now }

-- `UPDATE reimbursements SET f WHERE reimbursement_id = ... RETURNING`
unfoldable pub update_reimbursement :
    ℕ → (Reimbursement → Reimbursement) → Exec Db (Option Reimbursement)
update_reimbursement reimbursement_id f d =
    let rows = update (has_id reimbursement_id) f d.reimbursements.rows in
    (
      ok (find (has_id reimbursement_id) rows),
      record d { reimbursements = set_rows rows d.reimbursements },
    )

unfoldable pub update_transition :
    ℕ → ReimbursementStatus → Option String → Exec Db (Option Reimbursement)
unfolding update_reimbursement
update_transition reimbursement_id status payment_reference d =
    update_reimbursement reimbursement_id (moved_to status payment_reference d.now) d

unfoldable pub set_payment_receipt : ℕ → String → Exec Db (Option Reimbursement)
unfolding update_reimbursement
set_payment_receipt reimbursement_id payment_receipt_url d =
    update_reimbursement reimbursement_id (with_receipt payment_receipt_url d.now) d

abbrev pub is_payable : ℕ → ℕ → Expense → Bool
is_payable expense_id organization_id e =
    has_key expense_id organization_id e && eq_expense e.status ExpenseStatus.approved

abbrev pub reimbursed : Expense → Expense
reimbursed e = record e { status = ExpenseStatus.reimbursed }

unfoldable pub mark_expense_reimbursed : ℕ → ℕ → Exec Db (Option Expense)
mark_expense_reimbursed expense_id organization_id =
    update_expense (is_payable expense_id organization_id) reimbursed
