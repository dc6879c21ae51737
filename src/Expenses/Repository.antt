-- ===== src/Expenses/Repository.antt =====
-- expenses/repository.py over the tables, with the triggers and checks of backend/migrations that
-- guard the table `expenses`.
use ats_onework.Prelude.{
  ℕ, String, Bool, true, false, Option, none, some, List, [], ◌∷◌, ◌&&◌, ◌||◌, not, ◌==◌, ltb, leb,
  if◌then◌else◌, find, select, update, is_some, map,
}
use ats_onework.Exec.{Exec, Error, Result, ok, err}
use ats_onework.Constants.{ExpenseStatus, ApprovalAction, eq_expense}
use ats_onework.Schema.{
  Db, User, Project, Budget, ExpenseType, Expense, ExpenseApproval, ExpenseMedia, insert_row,
  set_rows,
}
use ats_onework.Tenant.{get_membership}
use ats_onework.Notifications.{before}
use ats_onework.Paging.{newest}

-- `None` where the project or its budget is not there
budget_org : Option Project → List Budget → Option ℕ
budget_org none budgets = none
budget_org (some p) budgets = elim (find (λ b. b.budget_id == p.budget_id) budgets) [
  | none ↦ none
  | some b ↦ some b.organization_id
]

unfoldable pub get_project_org : ℕ → Db → Option ℕ
unfolding budget_org
get_project_org project_id d =
    budget_org (find (λ p. p.project_id == project_id) d.projects) d.budgets.rows

unfoldable pub get_expense_type : ℕ → Db → Option ExpenseType
get_expense_type expense_type_id d =
    find (λ t. t.expense_type_id == expense_type_id) d.expense_types

-- `o IS NOT DISTINCT FROM org`
abbrev is_org : Option ℕ → ℕ → Bool
is_org none org_id = false
is_org (some o) org_id = o == org_id

abbrev type_org : Option ExpenseType → Option ℕ
type_org none = none
type_org (some t) = some t.organization_id

-- The trigger `validate_expense_org_consistency`: whether it lets the row pass.
unfoldable pub org_consistent : Db → Expense → Bool
org_consistent d e =
    is_some (get_membership e.employee_id e.organization_id d.memberships.rows)
    && is_org (get_project_org e.project_id d) e.organization_id
    && is_org (type_org (get_expense_type e.expense_type_id d)) e.organization_id

-- The trigger `validate_expense_status_transition`: whether it lets the change pass.
unfoldable pub transition_allowed : ExpenseStatus → ExpenseStatus → Bool
transition_allowed old new =
    eq_expense old new
    || eq_expense old ExpenseStatus.pending
      && (eq_expense new ExpenseStatus.info_requested
          || eq_expense new ExpenseStatus.approved
          || eq_expense new ExpenseStatus.rejected)
    || eq_expense old ExpenseStatus.info_requested
      && (eq_expense new ExpenseStatus.pending
          || eq_expense new ExpenseStatus.approved
          || eq_expense new ExpenseStatus.rejected)
    || eq_expense old ExpenseStatus.approved && eq_expense new ExpenseStatus.reimbursed

-- The CHECKs of the table: `amount > 0` and `chk_rejection_reason`.
abbrev pub row_checks : Expense → Bool
row_checks e =
    ltb 0 e.amount
    && (not (eq_expense e.status ExpenseStatus.rejected) || is_some e.rejection_reason)

-- How the database's error reaches the client: a cross-tenant row reads as not found.
unfoldable pub refuse : Bool → Bool → Option Error
refuse consistent checked =
    if consistent then if checked then none else some Error.validation else some Error.not_found

abbrev store_new : Option Error → Expense → Db → Result Expense × Db
store_new (some e) row d = (err e, d)
store_new none row d =
    (ok row, record d { expenses = insert_row (λ id. record row { expense_id = id }) d.expenses })

unfoldable pub create : ℕ → ℕ → ℕ → ℕ → ℕ → ℕ → Option String → Exec Db Expense
create employee_id project_id organization_id expense_type_id amount expense_date description d =
    let row : Expense = record {
      expense_id = d.expenses.next_id;
      employee_id = employee_id;
      project_id = project_id;
      organization_id = organization_id;
      expense_type_id = expense_type_id;
      amount = amount;
      status = ExpenseStatus.pending;
      rejection_reason = none;
      description = description;
      expense_date = expense_date;
      submission_date = d.now;
      updated_at = d.now;
      info_message = none;
      info_requested_at = none;
      info_response = none;
    } in
    store_new (refuse (org_consistent d row) (row_checks row)) row d

-- An expense with the names of what it refers to (`_EXPENSE_JOINED_COLUMNS`).
pub record JoinedExpense : Type 0 where
  pub expense : Expense
  pub open expense use *
  pub employee_name : String
  pub employee_email : String
  pub project_name : String
  pub expense_type_name : String

abbrev pub join_names :
    Option User → Option Project → Option ExpenseType → Expense → Option JoinedExpense
join_names (some u) (some p) (some t) e = some (record {
  expense = e;
  employee_name = u.name;
  employee_email = u.email;
  project_name = p.name;
  expense_type_name = t.name;
})
join_names _ _ _ e = none

-- The inner joins of `_EXPENSE_JOINS` on one row.
unfoldable pub join : Db → Expense → Option JoinedExpense
join d e =
    join_names (find (λ u. u.employee_id == e.employee_id) d.users.rows)
      (find (λ p. p.project_id == e.project_id) d.projects) (get_expense_type e.expense_type_id d) e

abbrev cons_some : Option JoinedExpense → List JoinedExpense → List JoinedExpense
cons_some none rest = rest
cons_some (some j) rest = j ∷ rest

unfoldable pub join_all : Db → List Expense → List JoinedExpense
join_all d [] = []
join_all d (e ∷ es) = cons_some (join d e) (join_all d es)

abbrev pub has_key : ℕ → ℕ → Expense → Bool
has_key expense_id organization_id e =
    e.expense_id == expense_id && e.organization_id == organization_id

abbrev join_found : Db → Option Expense → Option JoinedExpense
join_found d none = none
join_found d (some e) = join d e

unfoldable pub get_by_id : ℕ → ℕ → Db → Option JoinedExpense
get_by_id expense_id organization_id d =
    join_found d (find (has_key expense_id organization_id) d.expenses.rows)

abbrev pub get_by_id_for_update : ℕ → ℕ → Db → Option Expense
get_by_id_for_update expense_id organization_id d =
    find (has_key expense_id organization_id) d.expenses.rows

-- The trigger `set_updated_at_expenses` after the SET clause `f`.
abbrev pub stamped : ℕ → (Expense → Expense) → Expense → Expense
stamped now f e = record (f e) { updated_at = now }

abbrev update_refused : Db → Expense → Expense → Option Error
update_refused d old new =
    refuse (org_consistent d new) (transition_allowed old.status new.status && row_checks new)

abbrev store_update :
    Option Error
    → (Expense → Bool)
    → (Expense → Expense)
    → Expense
    → Db
    → Result (Option Expense) × Db
store_update (some e) p f old d = (err e, d)
store_update none p f old d = (
  ok (some (stamped d.now f old)),
  record d { expenses = set_rows (update p (stamped d.now f) d.expenses.rows) d.expenses },
)

-- `UPDATE expenses SET f WHERE p RETURNING`, for a `p` that names the key.
unfoldable pub update_expense : (Expense → Bool) → (Expense → Expense) → Exec Db (Option Expense)
update_expense p f d = elim (find p d.expenses.rows) [
  | none ↦ (ok none, d)
  | some old ↦ store_update (update_refused d old (stamped d.now f old)) p f old d
]

abbrev pub has_id : ℕ → Expense → Bool
has_id expense_id e = e.expense_id == expense_id

abbrev pub set_status :
    ExpenseStatus → Option String → Option String → Option ℕ → Option String → Expense → Expense
set_status status rejection_reason info_message info_requested_at info_response e = record e {
  status = status;
  rejection_reason = rejection_reason;
  info_message = info_message;
  info_requested_at = info_requested_at;
  info_response = info_response;
}

unfoldable pub update_status :
    ℕ
    → ExpenseStatus
    → Option String
    → Option String
    → Option ℕ
    → Option String
    → Exec Db (Option Expense)
unfolding update_expense
update_status expense_id status rejection_reason info_message info_requested_at info_response =
    update_expense (has_id expense_id)
      (set_status status rejection_reason info_message info_requested_at info_response)

unfoldable pub list_admin_ids : ℕ → Db → List ℕ
list_admin_ids organization_id d =
    map (λ m. m.employee_id)
      (select (λ m. m.organization_id == organization_id && m.is_admin) d.memberships.rows)

abbrev pub approval_row : ℕ → ℕ → ℕ → ℕ → ApprovalAction → Option String → ℕ → ExpenseApproval
approval_row now expense_id organization_id actioned_by action comments approval_id = record {
  approval_id = approval_id;
  expense_id = expense_id;
  organization_id = organization_id;
  actioned_by = actioned_by;
  action = action;
  comments = comments;
  actioned_at = now;
}

unfoldable pub insert_approval :
    ℕ → ℕ → ℕ → ApprovalAction → Option String → Exec Db ExpenseApproval
insert_approval expense_id organization_id actioned_by action comments d =
    let row : ℕ → ExpenseApproval =
      approval_row d.now expense_id organization_id actioned_by action comments in
    (
      ok (row d.expense_approvals.next_id),
      record d { expense_approvals = insert_row row d.expense_approvals },
    )

abbrev pub media_row : ℕ → ℕ → ℕ → String → Option String → ℕ → ExpenseMedia
media_row now expense_id organization_id receipt_url description media_id = record {
  media_id = media_id;
  expense_id = expense_id;
  organization_id = organization_id;
  receipt_url = receipt_url;
  description = description;
  uploaded_at = now;
}

unfoldable pub insert_media : ℕ → ℕ → String → Option String → Exec Db ExpenseMedia
insert_media expense_id organization_id receipt_url description d =
    let row : ℕ → ExpenseMedia =
      media_row d.now expense_id organization_id receipt_url description in
    (ok (row d.expense_media.next_id), record d { expense_media = insert_row row d.expense_media })

-- The rows are kept in the order of their keys, so `ORDER BY media_id ASC` is the order of the table.
unfoldable pub list_media : ℕ → ℕ → Db → List ExpenseMedia
list_media expense_id organization_id d =
    select (λ m. m.expense_id == expense_id && m.organization_id == organization_id)
      d.expense_media.rows

-- `%s IS NULL OR ...`
abbrev pub given {ℓ} : {A : Type ℓ} → Option A → (A → Bool) → Bool
given none p = true
given (some a) p = p a

abbrev pub listed :
    ℕ → Option ExpenseStatus → Option ℕ → Option ℕ → Option ℕ → Option ℕ → Expense → Bool
listed organization_id status from_date to_date before_id employee_id e =
    e.organization_id == organization_id
    && given status (λ s. eq_expense e.status s)
    && given from_date (λ t. leb t e.expense_date)
    && given to_date (λ t. leb e.expense_date t)
    && before before_id e.expense_id
    && given employee_id (λ i. e.employee_id == i)

unfoldable pub list_by_org :
    ℕ
    → Option ExpenseStatus
    → Option ℕ
    → Option ℕ
    → ℕ
    → Option ℕ
    → Option ℕ
    → Db
    → List JoinedExpense
list_by_org organization_id status from_date to_date limit before_id employee_id d =
    newest (λ j. j.expense_id) limit
      (join_all d (
        select (listed organization_id status from_date to_date before_id employee_id)
          d.expenses.rows))

unfoldable pub list_pending : ℕ → ℕ → Option ℕ → Db → List JoinedExpense
unfolding list_by_org
list_pending organization_id limit before_id =
    list_by_org organization_id (some ExpenseStatus.pending) none none limit before_id none
