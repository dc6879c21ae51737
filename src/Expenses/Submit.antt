-- ===== src/Expenses/Submit.antt =====
-- expenses/service.py: `ExpenseService.submit`.
pub mod Steps
use ats_onework.Prelude.{
  ℕ, String, Bool, true, false, Option, none, some, List, [], ◌∷◌, ◌&&◌, not, ◌==◌, ltb,
}
use ats_onework.Exec.{Exec, Error, pure, gets, or_raise, transaction, ◌>>=◌, ◌>>◌, raise_if}
use ats_onework.Schema.{
  Db, Expense, ExpenseType, ExpenseMedia, Notification, lit, num, number, decimal,
}
use ats_onework.Tenant.{require_member}
use ats_onework.Audit.{log}
use ats_onework.Expenses.Repository.{get_project_org, get_expense_type, create, insert_media}
use ats_onework.Expenses.Response.{ExpenseResponse, same_org, notify_admins, load_detail}

pub require_project_in_org : ℕ → ℕ → Exec Db (Unit {0})
require_project_in_org project_id org_id = do
  actual ← gets (get_project_org project_id)
  raise_if (not (same_org actual org_id)) Error.not_found

pub require_expense_type_in_org : ℕ → ℕ → Exec Db ExpenseType
require_expense_type_in_org expense_type_id org_id = do
  found ← gets (get_expense_type expense_type_id)
  expense_type ← or_raise found Error.not_found
  raise_if (not (expense_type.organization_id == org_id)) Error.not_found
  pure expense_type

abbrev no_receipts : List (String × Option String) → Bool
no_receipts [] = true
no_receipts (r ∷ rs) = false

abbrev over_limit : Option ℕ → ℕ → Bool
over_limit none amount = false
over_limit (some limit) amount = ltb limit amount

pub check_expense_type_rules : ExpenseType → ℕ → List (String × Option String) → Exec Db (Unit {0})
check_expense_type_rules expense_type amount receipts = do
  raise_if (expense_type.requires_receipt && no_receipts receipts) Error.validation
  raise_if (over_limit expense_type.default_limit amount) Error.validation

-- The body of the loop over the receipts, before the rounds that follow it.
pub insert_receipt :
    ℕ → ℕ → String × Option String → Exec Db (List ExpenseMedia) → Exec Db (List ExpenseMedia)
insert_receipt expense_id organization_id (url, description) others = do
  m ← insert_media expense_id organization_id url description
  ms ← others
  pure (m ∷ ms)

pub insert_receipts : ℕ → ℕ → List (String × Option String) → Exec Db (List ExpenseMedia)
insert_receipts expense_id organization_id [] = pure []
insert_receipts expense_id organization_id (receipt ∷ rest) =
    insert_receipt expense_id organization_id receipt
      (insert_receipts expense_id organization_id rest)

-- What `submit` writes once the row is there.
pub record_submit :
    ℕ
    → ℕ
    → ℕ
    → ℕ
    → List (String × Option String)
    → Expense
    → Exec Db (Expense × List ExpenseMedia × List Notification)
record_submit employee_id organization_id project_id amount receipts row = do
  media_rows ← insert_receipts row.expense_id organization_id receipts
  log (some employee_id) (some organization_id) (lit "expense.submit" ∷ []) "expenses"
      (num row.expense_id) none
      (some (("project_id", number project_id) ∷ ("amount", decimal amount) ∷ []))
  created ←
      notify_admins organization_id
        (record {
          employee_id = employee_id;
          title = lit "Expense submitted" ∷ [];
          message = lit "Expense #" ∷ num row.expense_id ∷ lit " is waiting for review." ∷ [];
          type = lit "expense.submit" ∷ [];
          reference_id = some row.expense_id;
        })
        (some employee_id)
  pure (row, media_rows, created)

-- The body of the transaction in `submit`.
unfoldable pub submit_writes :
    ℕ
    → ℕ
    → ℕ
    → ℕ
    → ℕ
    → ℕ
    → Option String
    → List (String × Option String)
    → Exec Db (Expense × List ExpenseMedia × List Notification)
submit_writes employee_id organization_id project_id expense_type_id amount expense_date description
      receipts =
    do
      row ←
          create employee_id project_id organization_id expense_type_id amount expense_date
            description
      record_submit employee_id organization_id project_id amount receipts row

-- What `submit` does once the type of the expense is known.
unfoldable pub submit_typed :
    ℕ
    → ℕ
    → ℕ
    → ℕ
    → ℕ
    → ℕ
    → Option String
    → List (String × Option String)
    → ExpenseType
    → Exec Db (ExpenseResponse × List Notification)
submit_typed employee_id organization_id project_id expense_type_id amount expense_date description
      receipts expense_type =
    do
      check_expense_type_rules expense_type amount receipts
      written ← transaction (
          submit_writes employee_id organization_id project_id expense_type_id amount expense_date
            description receipts)
      detail ← load_detail written.0.expense_id organization_id (some written.1)
      pure (detail, written.2)

-- `submit`, with the notifications that it hands back to its caller.
unfoldable pub submit :
    ℕ
    → ℕ
    → ℕ
    → ℕ
    → ℕ
    → ℕ
    → Option String
    → List (String × Option String)
    → Exec Db (ExpenseResponse × List Notification)
submit employee_id organization_id project_id expense_type_id amount expense_date description
      receipts =
    do
      require_member employee_id organization_id
      require_project_in_org project_id organization_id
      expense_type ← require_expense_type_in_org expense_type_id organization_id
      submit_typed employee_id organization_id project_id expense_type_id amount expense_date
          description receipts expense_type
