-- ===== src/Reimbursements/Step.antt =====
-- What one call may do to the table of reimbursements, whatever its method and its result.
use ats_onework.Prelude.{ℕ, Bool, true, none, some, ◌≡◌, find, update, Memᴰ, ◌<◌}
use ats_onework.Constants.{ExpenseStatus, ReimbursementStatus, reimbursement_transitions}
use ats_onework.Schema.{Db, Table, Expense, Reimbursement, insert_row, set_rows}
use ats_onework.Expenses.Repository as ExpenseRows
use ats_onework.Expenses.Step.{ExpenseStep}
use ats_onework.Reimbursements.Repository.{has_id, for_expense}

-- The columns that no method changes.
pub record SameTerms (r r' : Reimbursement) : Type 0 where
  pub reimbursement_id : r'.reimbursement_id ≡ r.reimbursement_id
  pub expense_id : r'.expense_id ≡ r.expense_id
  pub employee_id : r'.employee_id ≡ r.employee_id
  pub organization_id : r'.organization_id ≡ r.organization_id
  pub total_amount : r'.total_amount ≡ r.total_amount

-- The expense with key `k` is reimbursed.
abbrev pub IsReimbursed : Table Expense → ℕ → Type 0
IsReimbursed t k =
    (e : Expense) × (find (ExpenseRows.has_id k) t.rows ≡ some e)
    × (e.status ≡ ExpenseStatus.reimbursed)

-- The row pays the approved expense with key `k` of the organization: to its employee, its amount.
pub record Payable (org k : ℕ) (d : Db) (row : ℕ → Reimbursement) : Type 0 where
  pub expense : Expense
  pub is_row : Memᴰ expense d.expenses.rows
  pub of_key : expense.expense_id ≡ k
  pub of_organization : expense.organization_id ≡ org
  pub approved : expense.status ≡ ExpenseStatus.approved
  pub organization_id : (id : ℕ) → (row id).organization_id ≡ org
  pub employee_id : (id : ℕ) → (row id).employee_id ≡ expense.employee_id
  pub total_amount : (id : ℕ) → (row id).total_amount ≡ expense.amount
  pub positive : 0 < expense.amount

-- Nothing, a new pending reimbursement of an approved expense of the organization that has none, for
-- the expense's amount and employee, a change of one status along
-- `REIMBURSEMENT_TRANSITIONS` (to `paid` only if the expense is reimbursed now), or a change that
-- leaves the status alone.
pub data ReimbursementStep (org : ℕ) (d : Db) (es : Table Expense) (rs : Table Reimbursement)
    : Type 0 where
  unchanged : rs ≡ d.reimbursements → ReimbursementStep org d es rs
  inserted :
      (row : ℕ → Reimbursement) (k : ℕ)
      → ((id : ℕ) → (row id).reimbursement_id ≡ id)
      → ((id : ℕ) → (row id).expense_id ≡ k)
      → ((id : ℕ) → (row id).status ≡ ReimbursementStatus.pending)
      → Payable org k d row
      → find (for_expense k) d.reimbursements.rows ≡ none
      → rs ≡ insert_row row d.reimbursements
      → ReimbursementStep org d es rs
  moved :
      (q : Reimbursement → Bool) (f : Reimbursement → Reimbursement) (row : Reimbursement)
      (s : ReimbursementStatus)
      → find q d.reimbursements.rows ≡ some row
      → row.organization_id ≡ org
      → ((r : Reimbursement) → SameTerms r (f r))
      → ((r : Reimbursement) → (f r).status ≡ s)
      → reimbursement_transitions row.status s ≡ true
      → (s ≡ ReimbursementStatus.paid → IsReimbursed es row.expense_id)
      → rs
        ≡ set_rows (update (has_id row.reimbursement_id) f d.reimbursements.rows) d.reimbursements
      → ReimbursementStep org d es rs
  annotated :
      (q : Reimbursement → Bool) (f : Reimbursement → Reimbursement) (row : Reimbursement)
      → find q d.reimbursements.rows ≡ some row
      → row.organization_id ≡ org
      → ((r : Reimbursement) → SameTerms r (f r))
      → ((r : Reimbursement) → (f r).status ≡ r.status)
      → rs
        ≡ set_rows (update (has_id row.reimbursement_id) f d.reimbursements.rows) d.reimbursements
      → ReimbursementStep org d es rs

-- What one call may do to both tables.
pub record PayStep (org : ℕ) (d d' : Db) : Type 0 where
  pub expenses : ExpenseStep org d.expenses d'.expenses
  pub reimbursements : ReimbursementStep org d d'.expenses d'.reimbursements
