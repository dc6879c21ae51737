-- ===== src/Expenses/Review/Steps.antt =====
-- The methods of the review as steps of the table of expenses.
use ats_onework.Prelude.{
  ℕ, String, Option, none, some, ◌≡◌, refl, ◌==◌, find, Bool-cases, Option-cases, inl, inr,
}
use ats_onework.Prelude.Text.{strip, is_empty, or_empty, or_none, prefix}
use ats_onework.Exec.{Exec, transaction}
use ats_onework.Exec.Frame.{Leaves}
use ats_onework.Constants.{ExpenseStatus, ApprovalAction, expense_transitions}
use ats_onework.Schema.{Db, Expense}
use ats_onework.Tenant.{require_admin, require_member}
use ats_onework.Expenses.Repository.{has_key, update_status}
use ats_onework.Expenses.Response.{ExpenseResponse}
use ats_onework.Expenses.Frame.{core, core_rules}
use ats_onework.Expenses.Step.{
  ExpenseStep, unchanged, update_status-Step, after-Step, undo-Step, before-Step,
}
use ats_onework.Tenant.Guards.{require_admin-Leaves, require_member-Leaves}
use ats_onework.Expenses.Review.{
  decide_row, decide, approve, reject, request_info_row, request_info, resubmit_row, resubmit,
  decision_status, reason_for, with_locked, record_decision, record_question, record_answer,
  record_resubmit,
}

with_locked-Step :
    (id org : ℕ) (method : Expense → Exec Db ExpenseResponse) (d : Db)
    → ((row : Expense)
        → find (has_key id org) d.expenses.rows ≡ some row
        → ExpenseStep org d.expenses (method row d).1.expenses)
    → ExpenseStep org d.expenses (with_locked id org method d).1.expenses
unfolding with_locked transaction
with_locked-Step id org method d h = elim (Option-cases (find (has_key id org) d.expenses.rows)) [
  | inl e ↦ rw e (unchanged refl)
  | inr (row, e) ↦ rw e (undo-Step d (method row d) (h row e))
]

pub record_decision-core :
    (actor org id : ℕ) (action : ApprovalAction) (comments : Option String) (row : Expense)
    (updated : Option Expense)
    → Leaves core (record_decision actor org id action comments row updated)
unfolding record_decision
record_decision-core actor org id action comments row updated = search core_rules

pub record_question-core :
    (actor org id : ℕ) (message : String) (row : Expense) (updated : Option Expense)
    → Leaves core (record_question actor org id message row updated)
unfolding record_question
record_question-core actor org id message row updated = search core_rules

record_answer-core :
    (id org actor : ℕ) (answer : Option String) → Leaves core (record_answer id org actor answer)
unfolding record_answer
record_answer-core id org actor none = search core_rules
record_answer-core id org actor (some a) = search core_rules

pub record_resubmit-core :
    (actor org id : ℕ) (answer : Option String) (row : Expense) (updated : Option Expense)
    → Leaves core (record_resubmit actor org id answer row updated)
unfolding record_resubmit
record_resubmit-core actor org id answer row updated = search (core_rules, record_answer-core)

module _ (actor org id : ℕ) (d : Db) (row : Expense)
    (found : find (has_key id org) d.expenses.rows ≡ some row) where
  decide_row-Step :
      (action : ApprovalAction) (comments : Option String)
      → ExpenseStep org d.expenses (decide_row actor org id action comments row d).1.expenses
  unfolding decide_row
  decide_row-Step action comments =
      let target = decision_status action in
      elim (Bool-cases (row.employee_id == actor)) [
        | inl own ↦ rw own (unchanged refl)
        | inr other ↦ elim (Bool-cases (expense_transitions row.status target)) [
          | inr illegal ↦ rw (other, illegal) (unchanged refl)
          | inl legal ↦
              rw (other, legal)
                (after-Step (update_status id target (reason_for target comments) none none none)
                  (record_decision actor org id action comments row)
                  (record_decision-core actor org id action comments row)
                  (update_status-Step id org d row target (reason_for target comments) none none
                    none found legal))
        ]
      ]

  request_info_row-Step :
      (message : String)
      → ExpenseStep org d.expenses (request_info_row actor org id message row d).1.expenses
  unfolding request_info_row
  request_info_row-Step message =
      elim (Bool-cases (expense_transitions row.status ExpenseStatus.info_requested)) [
        | inr illegal ↦ rw illegal (unchanged refl)
        | inl legal ↦ rw legal (
            after-Step
              (update_status id ExpenseStatus.info_requested row.rejection_reason
                (some (prefix 500 message)) (some d.now) none)
              (record_question actor org id message row)
              (record_question-core actor org id message row)
              (update_status-Step id org d row ExpenseStatus.info_requested row.rejection_reason
                (some (prefix 500 message)) (some d.now) none found legal))
      ]

  resubmit_row-Step :
      (response : Option String)
      → ExpenseStep org d.expenses (resubmit_row actor org id response row d).1.expenses
  unfolding resubmit_row
  resubmit_row-Step response =
      let answer = or_none (strip (or_empty response)) in
      elim (Bool-cases (row.employee_id == actor)) [
        | inr other ↦ rw other (unchanged refl)
        | inl own ↦ elim (Bool-cases (expense_transitions row.status ExpenseStatus.pending)) [
          | inr illegal ↦ rw (own, illegal) (unchanged refl)
          | inl legal ↦
              rw (own, legal)
                (after-Step
                  (update_status id ExpenseStatus.pending row.rejection_reason row.info_message
                    row.info_requested_at answer)
                  (record_resubmit actor org id answer row)
                  (record_resubmit-core actor org id answer row)
                  (update_status-Step id org d row ExpenseStatus.pending row.rejection_reason
                    row.info_message row.info_requested_at answer found legal))
        ]
      ]

module _ (actor org id : ℕ) (d : Db) where
  decide-Step :
      (action : ApprovalAction) (comments : Option String)
      → ExpenseStep org d.expenses (decide actor org id action comments d).1.expenses
  unfolding decide
  decide-Step action comments =
      before-Step (require_admin actor org)
        (λ _. with_locked id org (decide_row actor org id action comments)) d
        (require_admin-Leaves (λ s. s) actor org)
        (λ _.
          with_locked-Step id org (decide_row actor org id action comments) d
            (λ row found. decide_row-Step actor org id d row found action comments))

  -- `approve`, whatever its result, changes the expenses by a step of its organization.
  pub approve-Step :
      (comments : Option String)
      → ExpenseStep org d.expenses (approve actor org id comments d).1.expenses
  unfolding approve
  approve-Step comments = decide-Step ApprovalAction.approved comments

  -- `reject` too.
  pub reject-Step :
      (comments : Option String)
      → ExpenseStep org d.expenses (reject actor org id comments d).1.expenses
  unfolding reject
  reject-Step comments = elim (Bool-cases (is_empty (strip (or_empty comments)))) [
    | inl e ↦ rw e (unchanged refl)
    | inr e ↦ rw e (decide-Step ApprovalAction.rejected comments)
  ]

  -- `request_info` too.
  pub request_info-Step :
      (comments : Option String)
      → ExpenseStep org d.expenses (request_info actor org id comments d).1.expenses
  unfolding request_info
  request_info-Step comments =
      let message = strip (or_empty comments) in
      elim (Bool-cases (is_empty message)) [
        | inl e ↦ rw e (unchanged refl)
        | inr e ↦ rw e (
            before-Step (require_admin actor org)
              (λ _. with_locked id org (request_info_row actor org id message)) d
              (require_admin-Leaves (λ s. s) actor org)
              (λ _.
                with_locked-Step id org (request_info_row actor org id message) d
                  (λ row found. request_info_row-Step actor org id d row found message)))
      ]

  -- `resubmit` too.
  pub resubmit-Step :
      (response : Option String)
      → ExpenseStep org d.expenses (resubmit actor org id response d).1.expenses
  unfolding resubmit
  resubmit-Step response =
      before-Step (require_member actor org)
        (λ _. with_locked id org (resubmit_row actor org id response)) d
        (require_member-Leaves (λ s. s) actor org)
        (λ _.
          with_locked-Step id org (resubmit_row actor org id response) d
            (λ row found. resubmit_row-Step actor org id d row found response))
