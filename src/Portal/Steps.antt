-- ===== src/Portal/Steps.antt =====
-- What a writing method may do to the tables of expenses and reimbursements.
use ats_onework.Prelude.{ℕ, String, Option, List, ◌≡◌, refl, ap, subst, sym, arith}
use ats_onework.Exec.{Exec, Result, ok, err, undo, continue, pure}
use ats_onework.Exec.Frame.{Leaves, leaves_rules}
use ats_onework.Constants.{ExpenseStatus, ApprovalAction}
use ats_onework.Schema.{Db, Table, Expense, ExpenseType, ExpenseMedia, Reimbursement}
use ats_onework.Tenant.Guards.{require_admin-Leaves, require_member-Leaves}
use ats_onework.Expenses.Repository.{update_expense, update_status, refuse, create}
use ats_onework.Expenses.Frame.{core}
use ats_onework.Expenses.Step.{ExpenseStep}
use ats_onework.Expenses.Legal.{IsKeyed}
use ats_onework.Expenses.Response.{ExpenseResponse, load_detail}
use ats_onework.Expenses.Frame.{load_detail-core}
use ats_onework.Expenses.Submit.{submit, submit_typed, submit_writes, record_submit}
use ats_onework.Expenses.Submit.Steps.{
  submit-Step, record_submit-core, rules-Leaves, project-Leaves, type-Leaves,
}
use ats_onework.Expenses.Review.{
  approve, reject, request_info, resubmit, decide, decide_row, request_info_row, resubmit_row,
  with_locked, record_decision, record_question, record_resubmit,
}
use ats_onework.Expenses.Review.Steps.{
  approve-Step, reject-Step, request_info-Step, resubmit-Step, record_decision-core,
  record_question-core, record_resubmit-core,
}
use ats_onework.Reimbursements.Step.{PayStep, unchanged}
use ats_onework.Reimbursements.Service.{create_for_expense, transition, attach_payment_receipt}
use ats_onework.Reimbursements.Service.Steps.{
  create_for_expense-Step, transition-Step, attach_payment_receipt-Step,
}
use ats_onework.Portal.{
  Call, submit_expense, approve_expense, reject_expense, ask_details, resubmit_expense,
  create_reimbursement, move_reimbursement, attach_receipt, dispatch, discard,
}

-- The methods on expenses leave the reimbursements alone.
abbrev payments : Db → Table Reimbursement
payments d = d.reimbursements

from-core : {A : Type 0} {m : Exec Db A} → Leaves core m → Leaves payments m
from-core h = record { at = λ s. ap payments (h.at s) }

update_status-payments :
    (id : ℕ) (s : ExpenseStatus) (reason msg : Option String) (at : Option ℕ) (resp : Option String)
    → Leaves payments (update_status id s reason msg at resp)
unfolding update_status update_expense refuse
update_status-payments id s reason msg at resp = record { at = λ d. ground arith }

create-payments :
    (employee project org type amount date : ℕ) (description : Option String)
    → Leaves payments (create employee project org type amount date description)
unfolding create refuse
create-payments employee project org type amount date description = record {
  at = λ d. ground arith;
}

module _ (actor org id : ℕ) where
  decision-payments :
      (action : ApprovalAction) (comments : Option String) (row : Expense) (o : Option Expense)
      → Leaves payments (record_decision actor org id action comments row o)
  decision-payments action comments row o =
      from-core (record_decision-core actor org id action comments row o)

  question-payments :
      (message : String) (row : Expense) (o : Option Expense)
      → Leaves payments (record_question actor org id message row o)
  question-payments message row o = from-core (record_question-core actor org id message row o)

  answer-payments :
      (answer : Option String) (row : Expense) (o : Option Expense)
      → Leaves payments (record_resubmit actor org id answer row o)
  answer-payments answer row o = from-core (record_resubmit-core actor org id answer row o)

record_submit-payments :
    (employee org project amount : ℕ) (receipts : List (String × Option String)) (row : Expense)
    → Leaves payments (record_submit employee org project amount receipts row)
record_submit-payments employee org project amount receipts row =
    from-core (record_submit-core employee org project amount receipts row)

load_detail-payments :
    (id org : ℕ) (ms : Option (List ExpenseMedia)) → Leaves payments (load_detail id org ms)
load_detail-payments id org ms = from-core (load_detail-core id org ms)

ruleset payments_rules = (
  leaves_rules, update_status-payments, create-payments, decision-payments, question-payments,
  answer-payments, record_submit-payments, load_detail-payments, require_admin-Leaves,
  require_member-Leaves, rules-Leaves, project-Leaves, type-Leaves,
)

with_locked-payments :
    (id org : ℕ) (method : Expense → Exec Db ExpenseResponse)
    → ((row : Expense) → Leaves payments (method row))
    → Leaves payments (with_locked id org method)
unfolding with_locked
with_locked-payments id org method h = search leaves_rules

module _ (actor org id : ℕ) where
  decide_row-payments :
      (action : ApprovalAction) (comments : Option String) (row : Expense)
      → Leaves payments (decide_row actor org id action comments row)
  unfolding decide_row
  decide_row-payments action comments row = search payments_rules

  request_info_row-payments :
      (message : String) (row : Expense)
      → Leaves payments (request_info_row actor org id message row)
  unfolding request_info_row
  request_info_row-payments message row = search payments_rules

  resubmit_row-payments :
      (response : Option String) (row : Expense)
      → Leaves payments (resubmit_row actor org id response row)
  unfolding resubmit_row
  resubmit_row-payments response row = search payments_rules

ruleset method_rules = (
  payments_rules, with_locked-payments, decide_row-payments, request_info_row-payments,
  resubmit_row-payments,
)

module _ (actor org id : ℕ) where
  decide-payments :
      (action : ApprovalAction) (comments : Option String)
      → Leaves payments (decide actor org id action comments)
  unfolding decide
  decide-payments action comments = search method_rules

  approve-payments : (comments : Option String) → Leaves payments (approve actor org id comments)
  unfolding approve
  approve-payments comments = decide-payments ApprovalAction.approved comments

  reject-payments : (comments : Option String) → Leaves payments (reject actor org id comments)
  unfolding reject
  reject-payments comments = search (payments_rules, decide-payments)

  request_info-payments :
      (comments : Option String) → Leaves payments (request_info actor org id comments)
  unfolding request_info
  request_info-payments comments = search method_rules

  resubmit-payments : (response : Option String) → Leaves payments (resubmit actor org id response)
  unfolding resubmit
  resubmit-payments response = search method_rules

submit_typed-payments :
    (employee org project type amount date : ℕ) (description : Option String)
    (receipts : List (String × Option String)) (t : ExpenseType)
    → Leaves payments (submit_typed employee org project type amount date description receipts t)
unfolding submit_typed submit_writes
submit_typed-payments employee org project type amount date description receipts t =
    search payments_rules

submit-payments :
    (employee org project type amount date : ℕ) (description : Option String)
    (receipts : List (String × Option String))
    → Leaves payments (submit employee org project type amount date description receipts)
unfolding submit
submit-payments employee org project type amount date description receipts =
    search (payments_rules, submit_typed-payments)

-- Dropping the result of an action does not change what it writes.
discard-state : {A : Type 0} (r : Result A × Db) → (continue (λ _. pure tt) r).1 ≡ r.1
discard-state (ok a, d) = refl
discard-state (err e, d) = refl

discard-Step :
    {A : Type 0} {org : ℕ} {d : Db} (m : Exec Db A)
    → PayStep org d (m d).1
    → PayStep org d (discard m d).1
discard-Step {org} {d} m = subst (PayStep org d) (sym (discard-state (m d)))

claim-Step :
    {A : Type 0} {org : ℕ} {d : Db} (m : Exec Db A)
    → Leaves payments m
    → ExpenseStep org d.expenses (m d).1.expenses
    → PayStep org d (discard m d).1
claim-Step {d} m keeps step =
    discard-Step m (record { expenses = step; reimbursements = unchanged (keeps.at d) })

-- If the keys of the expenses are distinct, every writing method, whatever its result, changes the two
-- tables by a step of its organization: nothing, a new pending expense of the organization, a new
-- pending reimbursement of an approved expense of the organization that has none, to the expense's
-- employee and for its amount, which is positive, a status moved along its table of transitions, or a
-- change that leaves the status and the terms of a reimbursement alone.
pub dispatch-Step :
    (actor org : ℕ) (c : Call) (d : Db)
    → IsKeyed d.expenses
    → PayStep org d (dispatch actor org c d).1
unfolding dispatch
dispatch-Step actor org (submit_expense p t a x s rs) d keyed =
    claim-Step (submit actor org p t a x s rs) (submit-payments actor org p t a x s rs)
      (submit-Step actor org p t a x s rs d)
dispatch-Step actor org (approve_expense id c) d keyed =
    claim-Step (approve actor org id c) (approve-payments actor org id c)
      (approve-Step actor org id d c)
dispatch-Step actor org (reject_expense id c) d keyed =
    claim-Step (reject actor org id c) (reject-payments actor org id c)
      (reject-Step actor org id d c)
dispatch-Step actor org (ask_details id c) d keyed =
    claim-Step (request_info actor org id c) (request_info-payments actor org id c)
      (request_info-Step actor org id d c)
dispatch-Step actor org (resubmit_expense id c) d keyed =
    claim-Step (resubmit actor org id c) (resubmit-payments actor org id c)
      (resubmit-Step actor org id d c)
dispatch-Step actor org (create_reimbursement id ref) d keyed =
    discard-Step (create_for_expense actor org id ref) (create_for_expense-Step actor org d id ref)
dispatch-Step actor org (move_reimbursement id target ref) d keyed =
    discard-Step (transition actor org id target ref)
      (transition-Step actor org d id target ref keyed)
dispatch-Step actor org (attach_receipt id url) d keyed =
    discard-Step (attach_payment_receipt actor org id url)
      (attach_payment_receipt-Step actor org d id url)

-- A rolled-back request is a step too.
pub idle-Step :
    {org : ℕ} (d : Db) (r : Result (Unit {0}) × Db) → PayStep org d r.1 → PayStep org d (undo d r).1
idle-Step d (ok a, d') h = h
idle-Step d (err e, d') h = record {
  expenses = ExpenseStep.unchanged refl;
  reimbursements = unchanged refl;
}
