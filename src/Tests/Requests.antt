-- ===== src/Tests/Requests.antt =====
-- The expense and reimbursement theorems at the office.
use ats_onework.Prelude.{ℕ, Bool, Memᴰ, none, some, List, [], ◌∷◌, ◌≡◌, refl, ◌⊎◌, arith, find}
use ats_onework.Exec.{Result, ok, err, transaction}
use ats_onework.Constants.{ExpenseStatus, ReimbursementStatus, ApprovalAction, expense_transitions}
use ats_onework.Schema.{Expense}
use ats_onework.Tenant.{require_member, require_admin, require_path_member, require_path_admin}
use ats_onework.Audit.{log}
use ats_onework.Notifications.{insert}
use ats_onework.Permissions.Holds.{Holds, IsSeat}
use ats_onework.Expenses.Repository.{
  has_id, get_by_id, join, list_media, update_status, update_expense, refuse, org_consistent,
  transition_allowed, insert_approval, get_expense_type, get_project_org,
}
use ats_onework.Expenses.Response.{ExpenseResponse, load_detail}
use ats_onework.Expenses.Reads.{get}
use ats_onework.Expenses.Scope.{get-scope}
use ats_onework.Expenses.Review.{decide, decide_row, with_locked, record_decision}
use ats_onework.Expenses.Review.Decision.{Decided, decide_sound}
use ats_onework.Reimbursements.Paid.{IsSound}
use ats_onework.Reimbursements.Step.{PayStep}
use ats_onework.Portal.{
  Request, Call, approve_expense, create_reimbursement, move_reimbursement, reject_expense,
  dispatch, run,
}
use ats_onework.Portal.Steps.{dispatch-Step}
use ats_onework.Portal.History.{Lived, rejected, run-IsSound, run-Lived, run-foreign, run-IsFinal}
use ats_onework.Tests.Office.{office, office-IsSound, expense}

abbrev ask : ℕ → ℕ → ℕ → Call → Request
ask at actor org call = record { at = at; actor = actor; organization_id = org; call = call }

-- An expense is approved, reimbursed and paid.
abbrev payday : List Request
payday =
    ask 21 2 1 (approve_expense 1 none)
    ∷ ask 22 2 1 (create_reimbursement 1 none)
    ∷ ask 23 2 1 (move_reimbursement 1 ReimbursementStatus.processing none)
    ∷ ask 24 2 1 (move_reimbursement 1 ReimbursementStatus.paid (some "ref"))
    ∷ []

-- What the administrator of the other organization tries.
abbrev elsewhere : List Request
elsewhere = ask 21 3 2 (approve_expense 1 none) ∷ ask 22 3 2 (reject_expense 1 (some "no")) ∷ []

run-IsSound_example : IsSound (run payday office)
run-IsSound_example = run-IsSound payday office office-IsSound

run-Lived_example :
    (f : Expense) × (find (has_id 1) (run payday office).expenses.rows ≡ some f)
    × Lived (expense 1 ExpenseStatus.pending) f
run-Lived_example = run-Lived payday office 1 (expense 1 ExpenseStatus.pending) office-IsSound refl

run-foreign_example :
    find (has_id 1) (run elsewhere office).expenses.rows ≡ some (expense 1 ExpenseStatus.pending)
run-foreign_example =
    run-foreign elsewhere office 1 (expense 1 ExpenseStatus.pending) office-IsSound refl
      (omega arith, (omega arith, tt))

run-IsFinal_example :
    (f : Expense) × (find (has_id 2) (run payday office).expenses.rows ≡ some f)
    × (f.status ≡ ExpenseStatus.rejected)
run-IsFinal_example =
    run-IsFinal payday office 2 (expense 2 ExpenseStatus.rejected) office-IsSound refl rejected

dispatch-Step_example : PayStep 1 office (dispatch 2 1 (approve_expense 1 none) office).1
dispatch-Step_example = dispatch-Step 2 1 (approve_expense 1 none) office office-IsSound.keyed

-- The response of a call that returned.
abbrev response : ExpenseResponse → Result ExpenseResponse → ExpenseResponse
response other (ok r) = r
response other (err e) = other

abbrev other : ExpenseResponse
other = record {
  row = record {
    expense = expense 1 ExpenseStatus.pending;
    employee_name = "n";
    employee_email = "a@x";
    project_name = "p";
    expense_type_name = "t";
  };
  receipts = [];
}

got : get 1 1 1 office ≡ (ok other, office)
unfolding get require_member require_path_member get_by_id join list_media get_expense_type
got = refl

get-scope_example :
    (office ≡ office)
    × (get_by_id 1 1 office ≡ some other.row)
    × (Memᴰ other.row.expense office.expenses.rows
        × (other.row.expense_id ≡ 1)
        × (other.row.organization_id ≡ 1))
    × ((admin : Bool) × IsSeat 1 1 admin office)
    × ((other.row.employee_id ≡ 1) ⊎ Holds 1 1 "expense.read_all" office)
get-scope_example = get-scope 1 1 1 office office other got

decided : decide 2 1 1 ApprovalAction.approved none office ≡ (
  ok (response other (decide 2 1 1 ApprovalAction.approved none office).0),
  (decide 2 1 1 ApprovalAction.approved none office).1,
)
unfolding decide with_locked transaction require_admin require_path_admin require_path_member
    decide_row expense_transitions update_status update_expense refuse org_consistent
    transition_allowed record_decision insert_approval log insert load_detail get_by_id join
    list_media get_expense_type get_project_org
decided = refl

decide_sound_example :
    Decided 2 1 1 ApprovalAction.approved office
      (decide 2 1 1 ApprovalAction.approved none office).1
decide_sound_example =
    decide_sound 2 1 1 ApprovalAction.approved none office
      (decide 2 1 1 ApprovalAction.approved none office).1
      (response other (decide 2 1 1 ApprovalAction.approved none office).0) office-IsSound.keyed
      decided
