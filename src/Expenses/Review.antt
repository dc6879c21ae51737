-- ===== src/Expenses/Review.antt =====
-- expenses/service.py: `approve`, `reject`, `request_info` and `resubmit` of `ExpenseService`.
pub mod Steps
pub mod Decision
use ats_onework.Prelude.{ℕ, String, Option, none, some, [], ◌∷◌, not, ◌==◌, if◌then◌else◌}
use ats_onework.Prelude.Text.{strip, is_empty, or_empty, or_none, prefix}
use ats_onework.Exec.{Exec, Error, pure, gets, or_raise, transaction, ◌>>=◌, ◌>>◌, raise_if}
use ats_onework.Constants.{
  ExpenseStatus, ApprovalAction, expense_transitions, expense_value, action_value, eq_expense,
  eq_action,
}
use ats_onework.Schema.{Db, Expense, lit, num, text}
use ats_onework.Tenant.{require_member, require_admin}
use ats_onework.Audit.{log}
use ats_onework.Notifications
use ats_onework.Notifications.{NotificationCreate}
use ats_onework.Expenses.Repository.{get_by_id_for_update, update_status, insert_approval}
use ats_onework.Expenses.Response.{ExpenseResponse, text_or_null, notify_admins, load_detail}

-- The transaction of a method: the row of the expense is locked, and the method goes on with it.
unfoldable pub with_locked : ℕ → ℕ → (Expense → Exec Db ExpenseResponse) → Exec Db ExpenseResponse
with_locked expense_id organization_id method = transaction (do
  found ← gets (get_by_id_for_update expense_id organization_id)
  row ← or_raise found Error.not_found
  method row)

-- `target` in `_decide`
abbrev pub decision_status : ApprovalAction → ExpenseStatus
decision_status action =
    if eq_action action ApprovalAction.approved
    then ExpenseStatus.approved
    else ExpenseStatus.rejected

abbrev pub reason_for : ExpenseStatus → Option String → Option String
reason_for target comments = if eq_expense target ExpenseStatus.rejected then comments else none

-- What `_decide` does once the row has its new status.
unfoldable pub record_decision :
    ℕ → ℕ → ℕ → ApprovalAction → Option String → Expense → Option Expense → Exec Db ExpenseResponse
record_decision actor_id organization_id expense_id action comments row updated = do
  let target = decision_status action
  or_raise updated Error.assertion
  insert_approval expense_id organization_id actor_id action comments
  log (some actor_id) (some organization_id) (lit "expense." ∷ lit (action_value action) ∷ [])
      "expenses" (num expense_id)
      (some (("status", text (lit (expense_value row.status) ∷ [])) ∷ []))
      (some (
        ("status", text (lit (expense_value target) ∷ []))
        ∷ ("rejection_reason", text_or_null (reason_for target comments))
        ∷ []))
  Notifications.insert (record {
    employee_id = row.employee_id;
    title = lit "Expense " ∷ lit (expense_value target) ∷ [];
    message =
        lit "Expense #" ∷ num expense_id ∷ lit " was " ∷ lit (expense_value target) ∷ lit "." ∷ [];
    type = lit "expense." ∷ lit (expense_value target) ∷ [];
    reference_id = some expense_id;
  })
  load_detail expense_id organization_id none

-- What `_decide` does with the locked row.
unfoldable pub decide_row :
    ℕ → ℕ → ℕ → ApprovalAction → Option String → Expense → Exec Db ExpenseResponse
decide_row actor_id organization_id expense_id action comments row = do
  raise_if (row.employee_id == actor_id) Error.authorization
  let target = decision_status action
  raise_if (not (expense_transitions row.status target)) Error.conflict
  updated ← update_status expense_id target (reason_for target comments) none none none
  record_decision actor_id organization_id expense_id action comments row updated

unfoldable pub decide : ℕ → ℕ → ℕ → ApprovalAction → Option String → Exec Db ExpenseResponse
decide actor_id organization_id expense_id action comments = do
  require_admin actor_id organization_id
  with_locked expense_id organization_id
      (decide_row actor_id organization_id expense_id action comments)

unfoldable pub approve : ℕ → ℕ → ℕ → Option String → Exec Db ExpenseResponse
approve actor_id organization_id expense_id comments =
    decide actor_id organization_id expense_id ApprovalAction.approved comments

unfoldable pub reject : ℕ → ℕ → ℕ → Option String → Exec Db ExpenseResponse
reject actor_id organization_id expense_id comments = do
  raise_if (is_empty (strip (or_empty comments))) Error.validation
  decide actor_id organization_id expense_id ApprovalAction.rejected comments

-- What `request_info` does once the row has its new status.
pub record_question : ℕ → ℕ → ℕ → String → Expense → Option Expense → Exec Db ExpenseResponse
record_question actor_id organization_id expense_id message row updated = do
  or_raise updated Error.assertion
  insert_approval expense_id organization_id actor_id ApprovalAction.info_requested (some message)
  log (some actor_id) (some organization_id) (lit "expense.info_requested" ∷ []) "expenses"
      (num expense_id) (some (("status", text (lit (expense_value row.status) ∷ [])) ∷ []))
      (some (
        ("status", text (lit "info_requested" ∷ []))
        ∷ ("info_message", text (lit (prefix 500 message) ∷ []))
        ∷ []))
  Notifications.insert (record {
    employee_id = row.employee_id;
    title = lit "Details needed for your expense" ∷ [];
    message = lit "Expense #" ∷ num expense_id ∷ lit ": " ∷ lit (prefix 400 message) ∷ [];
    type = lit "expense.info_requested" ∷ [];
    reference_id = some expense_id;
  })
  load_detail expense_id organization_id none

-- What `request_info` does with the locked row.
unfoldable pub request_info_row : ℕ → ℕ → ℕ → String → Expense → Exec Db ExpenseResponse
request_info_row actor_id organization_id expense_id message row = do
  raise_if (not (expense_transitions row.status ExpenseStatus.info_requested)) Error.conflict
  at ← gets (λ d. d.now)
  updated ←
      update_status expense_id ExpenseStatus.info_requested row.rejection_reason
        (some (prefix 500 message)) (some at) none
  record_question actor_id organization_id expense_id message row updated

unfoldable pub request_info : ℕ → ℕ → ℕ → Option String → Exec Db ExpenseResponse
request_info actor_id organization_id expense_id comments = do
  let message = strip (or_empty comments)
  raise_if (is_empty message) Error.validation
  require_admin actor_id organization_id
  with_locked expense_id organization_id
      (request_info_row actor_id organization_id expense_id message)

-- The answer is kept in the approval history too, if there is one.
pub record_answer : ℕ → ℕ → ℕ → Option String → Exec Db (Unit {0})
record_answer expense_id organization_id actor_id none = pure tt
record_answer expense_id organization_id actor_id (some answer) = do
  insert_approval expense_id organization_id actor_id ApprovalAction.info_answered (some answer)
  pure tt

-- What `resubmit` does once the row has its new status.
pub record_resubmit : ℕ → ℕ → ℕ → Option String → Expense → Option Expense → Exec Db ExpenseResponse
unfolding record_answer
record_resubmit actor_id organization_id expense_id answer row updated = do
  or_raise updated Error.assertion
  record_answer expense_id organization_id actor_id answer
  log (some actor_id) (some organization_id) (lit "expense.resubmit" ∷ []) "expenses"
      (num expense_id) (some (("status", text (lit (expense_value row.status) ∷ [])) ∷ []))
      (some (("status", text (lit "pending" ∷ [])) ∷ ("info_response", text_or_null answer) ∷ []))
  notify_admins organization_id
      (record {
        employee_id = actor_id;
        title = lit "Expense updated after info request" ∷ [];
        message = lit "Expense #" ∷ num expense_id ∷ lit " is back in the pending queue." ∷ [];
        type = lit "expense.resubmit" ∷ [];
        reference_id = some expense_id;
      })
      none
  load_detail expense_id organization_id none

-- What `resubmit` does with the locked row.
unfoldable pub resubmit_row : ℕ → ℕ → ℕ → Option String → Expense → Exec Db ExpenseResponse
resubmit_row actor_id organization_id expense_id response row = do
  raise_if (not (row.employee_id == actor_id)) Error.authorization
  raise_if (not (expense_transitions row.status ExpenseStatus.pending)) Error.conflict
  let answer = or_none (strip (or_empty response))
  updated ←
      update_status expense_id ExpenseStatus.pending row.rejection_reason row.info_message
        row.info_requested_at answer
  record_resubmit actor_id organization_id expense_id answer row updated

unfoldable pub resubmit : ℕ → ℕ → ℕ → Option String → Exec Db ExpenseResponse
resubmit actor_id organization_id expense_id response = do
  require_member actor_id organization_id
  with_locked expense_id organization_id (resubmit_row actor_id organization_id expense_id response)
