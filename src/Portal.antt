-- ===== src/Portal.antt =====
-- The writing requests of expenses/router.py and reimbursements/router.py, one after another: the
-- service methods that they call, each on a connection whose request is one transaction
-- (db/connection.py: `get_connection`). No method of these modules commits by itself.
pub mod Steps
pub mod History
use ats_onework.Prelude.{ℕ, String, Option, List, [], ◌∷◌}
use ats_onework.Exec.{Exec, pure, undo, ◌>>=◌, ◌>>◌, Result}
use ats_onework.Constants.{ReimbursementStatus}
use ats_onework.Schema.{Db}
use ats_onework.Expenses.Submit.{submit}
use ats_onework.Expenses.Review.{approve, reject, request_info, resubmit}
use ats_onework.Reimbursements.Service.{create_for_expense, transition, attach_payment_receipt}

-- A service method with the arguments it takes after the actor and the organization.
pub data Call : Type 0 where
  submit_expense :
      (project_id expense_type_id amount expense_date : ℕ) (description : Option String)
      (receipts : List (String × Option String))
      → Call
  approve_expense reject_expense ask_details resubmit_expense :
      (expense_id : ℕ) (comments : Option String) → Call
  create_reimbursement : (expense_id : ℕ) (payment_reference : Option String) → Call
  move_reimbursement :
      (reimbursement_id : ℕ) (target : ReimbursementStatus) (payment_reference : Option String)
      → Call
  attach_receipt : (reimbursement_id : ℕ) (payment_receipt_url : String) → Call

-- The body of a response is dropped.
abbrev pub discard : {A : Type 0} → Exec Db A → Exec Db (Unit {0})
discard m = m >>= λ _. pure tt

unfoldable pub dispatch : ℕ → ℕ → Call → Exec Db (Unit {0})
dispatch actor org (submit_expense project type amount date description receipts) =
    discard (submit actor org project type amount date description receipts)
dispatch actor org (approve_expense id comments) = discard (approve actor org id comments)
dispatch actor org (reject_expense id comments) = discard (reject actor org id comments)
dispatch actor org (ask_details id comments) = discard (request_info actor org id comments)
dispatch actor org (resubmit_expense id comments) = discard (resubmit actor org id comments)
dispatch actor org (create_reimbursement id reference) =
    discard (create_for_expense actor org id reference)
dispatch actor org (move_reimbursement id target reference) =
    discard (transition actor org id target reference)
dispatch actor org (attach_receipt id url) = discard (attach_payment_receipt actor org id url)

pub record Request : Type 0 where
  pub at : ℕ
  pub actor : ℕ
  pub organization_id : ℕ
  pub call : Call

abbrev pub at_time : ℕ → Db → Db
at_time t d = record d { now = t }

-- One request: its writes are committed if it returns, and rolled back if it raises.
unfoldable pub serve : Request → Db → Result (Unit {0}) × Db
serve r d = undo (at_time r.at d) (dispatch r.actor r.organization_id r.call (at_time r.at d))

unfoldable pub run : List Request → Db → Db
run [] d = d
run (r ∷ rest) d = run rest (serve r d).1
