-- ===== src/Reimbursements/Service.antt =====
-- reimbursements/service.py: `ReimbursementService`.
pub mod Moves
pub mod Steps
use ats_onework.Prelude.{
  ℕ, String, Bool, true, false, Option, none, some, List, [], ◌∷◌, ◌&&◌, not, if◌then◌else◌,
}
use ats_onework.Prelude.Text.{strip, is_empty, or_empty}
use ats_onework.Exec.{Exec, Error, pure, raise, gets, or_raise, transaction, ◌>>=◌, ◌>>◌, raise_if}
use ats_onework.Constants.{
  ExpenseStatus, ReimbursementStatus, reimbursement_transitions, reimbursement_value, eq_expense,
  eq_reimbursement,
}
use ats_onework.Schema.{Db, Expense, Reimbursement, lit, num, text, number, decimal}
use ats_onework.Tenant.{require_member, require_admin}
use ats_onework.Audit.{log}
use ats_onework.Notifications
use ats_onework.Permissions.{has_permission}
use ats_onework.Reimbursements.Repository.{
  get_expense, get_by_id, create, list_by_org, update_transition, set_payment_receipt,
  mark_expense_reimbursed,
}

pub log_created : ℕ → ℕ → ℕ → ℕ → Reimbursement → Exec Db Reimbursement
log_created actor_id organization_id expense_id amount row = do
  log (some actor_id) (some organization_id) (lit "reimbursement.create" ∷ []) "reimbursements"
      (num row.reimbursement_id) none
      (some (("expense_id", number expense_id) ∷ ("total_amount", decimal amount) ∷ []))
  pure row

-- What `create_for_expense` does with the expense.
pub create_row : ℕ → ℕ → ℕ → Option String → Expense → Exec Db Reimbursement
create_row actor_id organization_id expense_id payment_reference expense = do
  raise_if (not (eq_expense expense.status ExpenseStatus.approved)) Error.conflict
  row ← create expense_id expense.employee_id organization_id expense.amount payment_reference
  log_created actor_id organization_id expense_id expense.amount row

pub create_for_expense : ℕ → ℕ → ℕ → Option String → Exec Db Reimbursement
create_for_expense actor_id organization_id expense_id payment_reference = do
  require_admin actor_id organization_id
  transaction (do
    found ← gets (get_expense expense_id organization_id)
    expense ← or_raise found Error.not_found
    create_row actor_id organization_id expense_id payment_reference expense)

-- `ReimbursementService.list`
pub list_reimbursements :
    ℕ → ℕ → Option ReimbursementStatus → ℕ → Option ℕ → Exec Db (List Reimbursement)
list_reimbursements employee_id organization_id status limit before_id = do
  require_member employee_id organization_id
  can_read_all ← gets (has_permission employee_id organization_id "reimbursement.read_all")
  gets (
      list_by_org organization_id status limit before_id
        (if can_read_all then none else some employee_id))

-- The transaction of a method: the row is locked, and the method goes on with it.
pub with_locked : ℕ → ℕ → (Reimbursement → Exec Db Reimbursement) → Exec Db Reimbursement
with_locked reimbursement_id organization_id method = transaction (do
  found ← gets (get_by_id reimbursement_id organization_id)
  current ← or_raise found Error.not_found
  method current)

abbrev pub is_paid : ReimbursementStatus → Bool
is_paid s = eq_reimbursement s ReimbursementStatus.paid

-- A paid reimbursement takes its expense along.
pub settle : Bool → ℕ → ℕ → Exec Db (Unit {0})
settle false expense_id organization_id = pure tt
settle true expense_id organization_id = do
  marked ← mark_expense_reimbursed expense_id organization_id
  or_raise marked Error.conflict
  pure tt

-- The audit row and the notification of `transition`.
pub record_transition :
    ℕ → ℕ → ℕ → ReimbursementStatus → Reimbursement → Reimbursement → Exec Db Reimbursement
record_transition actor_id organization_id reimbursement_id target current updated = do
  log (some actor_id) (some organization_id)
      (lit "reimbursement." ∷ lit (reimbursement_value target) ∷ []) "reimbursements"
      (num reimbursement_id)
      (some (("status", text (lit (reimbursement_value current.status) ∷ [])) ∷ []))
      (some (("status", text (lit (reimbursement_value target) ∷ [])) ∷ []))
  Notifications.insert (record {
    employee_id = current.employee_id;
    title = lit "Reimbursement " ∷ lit (reimbursement_value target) ∷ [];
    message =
        lit "Reimbursement #"
        ∷ num reimbursement_id
        ∷ lit " is "
        ∷ lit (reimbursement_value target)
        ∷ lit "."
        ∷ [];
    type = lit "reimbursement." ∷ lit (reimbursement_value target) ∷ [];
    reference_id = some reimbursement_id;
  })
  pure updated

-- What `transition` does once the row has its new status.
pub after_transition :
    ℕ → ℕ → ℕ → ReimbursementStatus → Reimbursement → Option Reimbursement → Exec Db Reimbursement
after_transition actor_id organization_id reimbursement_id target current found = do
  updated ← or_raise found Error.assertion
  settle (is_paid target) current.expense_id organization_id
  record_transition actor_id organization_id reimbursement_id target current updated

-- What `transition` does with the locked row.
pub transition_row :
    ℕ → ℕ → ℕ → ReimbursementStatus → Option String → Reimbursement → Exec Db Reimbursement
transition_row actor_id organization_id reimbursement_id target payment_reference current = do
  raise_if (not (reimbursement_transitions current.status target)) Error.conflict
  updated ← update_transition reimbursement_id target payment_reference
  after_transition actor_id organization_id reimbursement_id target current updated

pub transition : ℕ → ℕ → ℕ → ReimbursementStatus → Option String → Exec Db Reimbursement
transition actor_id organization_id reimbursement_id target payment_reference = do
  require_admin actor_id organization_id
  raise_if (is_paid target && is_empty (strip (or_empty payment_reference))) Error.validation
  with_locked reimbursement_id organization_id
      (transition_row actor_id organization_id reimbursement_id target payment_reference)

pub log_receipt : ℕ → ℕ → ℕ → String → Option Reimbursement → Exec Db Reimbursement
log_receipt actor_id organization_id reimbursement_id payment_receipt_url found = do
  updated ← or_raise found Error.assertion
  log (some actor_id) (some organization_id) (lit "reimbursement.receipt_attached" ∷ [])
      "reimbursements" (num reimbursement_id) none
      (some (("payment_receipt_url", text (lit payment_receipt_url ∷ [])) ∷ []))
  pure updated

-- What `attach_payment_receipt` does with the locked row.
pub attach_row : ℕ → ℕ → ℕ → String → Reimbursement → Exec Db Reimbursement
attach_row actor_id organization_id reimbursement_id payment_receipt_url current = do
  raise_if (not (is_paid current.status)) Error.conflict
  updated ← set_payment_receipt reimbursement_id payment_receipt_url
  log_receipt actor_id organization_id reimbursement_id payment_receipt_url updated

pub attach_payment_receipt : ℕ → ℕ → ℕ → String → Exec Db Reimbursement
attach_payment_receipt actor_id organization_id reimbursement_id payment_receipt_url = do
  require_admin actor_id organization_id
  with_locked reimbursement_id organization_id
      (attach_row actor_id organization_id reimbursement_id payment_receipt_url)
