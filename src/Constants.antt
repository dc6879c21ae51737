-- ===== src/Constants.antt =====
-- core/constants.py: the statuses and the transition maps of the state machines.
use ats_onework.Prelude.{ℕ, String, Bool, true, false, ◌==◌}

pub data AccountStatus : Type 0 where
  active suspended locked inactive : AccountStatus

pub data EmployeeStatus : Type 0 where
  active inactive suspended on_leave : EmployeeStatus

pub data TokenPurpose : Type 0 where
  login reset_password refresh verify_email : TokenPurpose

pub data ExpenseStatus : Type 0 where
  pending info_requested approved rejected reimbursed : ExpenseStatus

pub data ApprovalAction : Type 0 where
  approved rejected info_requested info_answered : ApprovalAction

pub data ReimbursementStatus : Type 0 where
  pending processing paid failed : ReimbursementStatus

pub data ProjectAccessStatus : Type 0 where
  pending approved rejected : ProjectAccessStatus

-- `==` of two members of one enumeration, by their position in it.
abbrev account_rank : AccountStatus → ℕ
account_rank AccountStatus.active = 0
account_rank AccountStatus.suspended = 1
account_rank AccountStatus.locked = 2
account_rank AccountStatus.inactive = 3

abbrev pub eq_account : AccountStatus → AccountStatus → Bool
eq_account s t = account_rank s == account_rank t

abbrev employee_rank : EmployeeStatus → ℕ
employee_rank EmployeeStatus.active = 0
employee_rank EmployeeStatus.inactive = 1
employee_rank EmployeeStatus.suspended = 2
employee_rank EmployeeStatus.on_leave = 3

abbrev pub eq_employee : EmployeeStatus → EmployeeStatus → Bool
eq_employee s t = employee_rank s == employee_rank t

abbrev pub employee_text : EmployeeStatus → String
employee_text EmployeeStatus.active = "active"
employee_text EmployeeStatus.inactive = "inactive"
employee_text EmployeeStatus.suspended = "suspended"
employee_text EmployeeStatus.on_leave = "on_leave"

abbrev purpose_rank : TokenPurpose → ℕ
purpose_rank TokenPurpose.login = 0
purpose_rank TokenPurpose.reset_password = 1
purpose_rank TokenPurpose.refresh = 2
purpose_rank TokenPurpose.verify_email = 3

abbrev pub eq_purpose : TokenPurpose → TokenPurpose → Bool
eq_purpose s t = purpose_rank s == purpose_rank t

abbrev expense_rank : ExpenseStatus → ℕ
expense_rank ExpenseStatus.pending = 0
expense_rank ExpenseStatus.info_requested = 1
expense_rank ExpenseStatus.approved = 2
expense_rank ExpenseStatus.rejected = 3
expense_rank ExpenseStatus.reimbursed = 4

abbrev pub eq_expense : ExpenseStatus → ExpenseStatus → Bool
eq_expense s t = expense_rank s == expense_rank t

abbrev action_rank : ApprovalAction → ℕ
action_rank ApprovalAction.approved = 0
action_rank ApprovalAction.rejected = 1
action_rank ApprovalAction.info_requested = 2
action_rank ApprovalAction.info_answered = 3

abbrev pub eq_action : ApprovalAction → ApprovalAction → Bool
eq_action s t = action_rank s == action_rank t

abbrev reimbursement_rank : ReimbursementStatus → ℕ
reimbursement_rank ReimbursementStatus.pending = 0
reimbursement_rank ReimbursementStatus.processing = 1
reimbursement_rank ReimbursementStatus.paid = 2
reimbursement_rank ReimbursementStatus.failed = 3

abbrev pub eq_reimbursement : ReimbursementStatus → ReimbursementStatus → Bool
eq_reimbursement s t = reimbursement_rank s == reimbursement_rank t

abbrev project_access_rank : ProjectAccessStatus → ℕ
project_access_rank ProjectAccessStatus.pending = 0
project_access_rank ProjectAccessStatus.approved = 1
project_access_rank ProjectAccessStatus.rejected = 2

abbrev pub eq_project_access : ProjectAccessStatus → ProjectAccessStatus → Bool
eq_project_access s t = project_access_rank s == project_access_rank t

-- The `.value` of each status, as it stands in audit rows and notification types.
abbrev pub expense_value : ExpenseStatus → String
expense_value ExpenseStatus.pending = "pending"
expense_value ExpenseStatus.info_requested = "info_requested"
expense_value ExpenseStatus.approved = "approved"
expense_value ExpenseStatus.rejected = "rejected"
expense_value ExpenseStatus.reimbursed = "reimbursed"

abbrev pub action_value : ApprovalAction → String
action_value ApprovalAction.approved = "approved"
action_value ApprovalAction.rejected = "rejected"
action_value ApprovalAction.info_requested = "info_requested"
action_value ApprovalAction.info_answered = "info_answered"

abbrev pub reimbursement_value : ReimbursementStatus → String
reimbursement_value ReimbursementStatus.pending = "pending"
reimbursement_value ReimbursementStatus.processing = "processing"
reimbursement_value ReimbursementStatus.paid = "paid"
reimbursement_value ReimbursementStatus.failed = "failed"

abbrev pub project_access_value : ProjectAccessStatus → String
project_access_value ProjectAccessStatus.pending = "pending"
project_access_value ProjectAccessStatus.approved = "approved"
project_access_value ProjectAccessStatus.rejected = "rejected"

-- `t in EXPENSE_TRANSITIONS[s]`
unfoldable pub expense_transitions : ExpenseStatus → ExpenseStatus → Bool
expense_transitions ExpenseStatus.pending ExpenseStatus.info_requested = true
expense_transitions ExpenseStatus.pending ExpenseStatus.approved = true
expense_transitions ExpenseStatus.pending ExpenseStatus.rejected = true
expense_transitions ExpenseStatus.info_requested ExpenseStatus.pending = true
expense_transitions ExpenseStatus.info_requested ExpenseStatus.approved = true
expense_transitions ExpenseStatus.info_requested ExpenseStatus.rejected = true
expense_transitions ExpenseStatus.approved ExpenseStatus.reimbursed = true
expense_transitions _ _ = false

-- `t in REIMBURSEMENT_TRANSITIONS[s]`
unfoldable pub reimbursement_transitions : ReimbursementStatus → ReimbursementStatus → Bool
reimbursement_transitions ReimbursementStatus.pending ReimbursementStatus.processing = true
reimbursement_transitions ReimbursementStatus.processing ReimbursementStatus.paid = true
reimbursement_transitions ReimbursementStatus.processing ReimbursementStatus.failed = true
reimbursement_transitions ReimbursementStatus.failed ReimbursementStatus.processing = true
reimbursement_transitions _ _ = false

-- `t in PROJECT_ACCESS_TRANSITIONS[s]`
unfoldable pub project_access_transitions : ProjectAccessStatus → ProjectAccessStatus → Bool
project_access_transitions ProjectAccessStatus.pending ProjectAccessStatus.approved = true
project_access_transitions ProjectAccessStatus.pending ProjectAccessStatus.rejected = true
project_access_transitions _ _ = false
