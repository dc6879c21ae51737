-- ===== src/Expenses/Submit/Steps.antt =====
-- `submit` as a step of the table of expenses.
use ats_onework.Prelude.{
  ℕ, String, Option, none, some, List, [], ◌∷◌, ◌≡◌, refl, arith, ◌⊎◌, inl, inr,
}
use ats_onework.Exec.{Exec, ◌>>=◌, transaction, pure}
use ats_onework.Exec.Frame.{Leaves, leaves_rules}
use ats_onework.Constants.{ExpenseStatus}
use ats_onework.Schema.{Db, Expense, ExpenseType, ExpenseMedia, Notification, insert_row}
use ats_onework.Tenant.{require_member}
use ats_onework.Tenant.Guards.{require_member-Leaves}
use ats_onework.Expenses.Repository.{create, refuse}
use ats_onework.Expenses.Response.{ExpenseResponse, load_detail}
use ats_onework.Expenses.Frame.{core, core_rules}
use ats_onework.Expenses.Step.{ExpenseStep, unchanged, inserted, after-Step, undo-Step, before-Step}
use ats_onework.Expenses.Submit.{
  require_project_in_org, require_expense_type_in_org, check_expense_type_rules, insert_receipt,
  insert_receipts, record_submit, submit_writes, submit_typed, submit,
}

-- The row that `create` inserts.
abbrev new_row : ℕ → ℕ → ℕ → ℕ → ℕ → ℕ → Option String → ℕ → ℕ → Expense
new_row employee project org type amount date description now id = record {
  expense_id = id;
  employee_id = employee;
  project_id = project;
  organization_id = org;
  expense_type_id = type;
  amount = amount;
  status = ExpenseStatus.pending;
  rejection_reason = none;
  description = description;
  expense_date = date;
  submission_date = now;
  updated_at = now;
  info_message = none;
  info_requested_at = none;
  info_response = none;
}

module _ (employee org project type amount date : ℕ) (description : Option String) where
  create-rows :
      (d : Db)
      → ((create employee project org type amount date description d).1.expenses ≡ d.expenses)
        ⊎ ((create employee project org type amount date description d).1.expenses
            ≡ insert_row
                (new_row employee project org type amount date description d.now)
                d.expenses)
  unfolding create refuse
  create-rows d = ground arith

  create-Step :
      (d : Db)
      → ExpenseStep org d.expenses
          (create employee project org type amount date description d).1.expenses
  create-Step d = elim (create-rows d) [
    | inl e ↦ unchanged e
    | inr e ↦
        inserted (new_row employee project org type amount date description d.now) (λ id. refl)
          (λ id. refl) (λ id. refl) e
  ]

insert_receipt-core :
    (id org : ℕ) (r : String × Option String) (others : Exec Db (List ExpenseMedia))
    → Leaves core others
    → Leaves core (insert_receipt id org r others)
unfolding insert_receipt
insert_receipt-core id org r others h = search core_rules

insert_receipts-core :
    (id org : ℕ) (receipts : List (String × Option String))
    → Leaves core (insert_receipts id org receipts)
unfolding insert_receipts
insert_receipts-core id org [] = search core_rules
insert_receipts-core id org (r ∷ rest) =
    insert_receipt-core id org r (insert_receipts id org rest) (insert_receipts-core id org rest)

pub record_submit-core :
    (employee org project amount : ℕ) (receipts : List (String × Option String)) (row : Expense)
    → Leaves core (record_submit employee org project amount receipts row)
unfolding record_submit
record_submit-core employee org project amount receipts row =
    search (core_rules, insert_receipts-core)

module _ {T : Type 0} (part : Db → T) where
  pub project-Leaves : (project org : ℕ) → Leaves part (require_project_in_org project org)
  unfolding require_project_in_org
  project-Leaves project org = search leaves_rules

  pub type-Leaves : (type org : ℕ) → Leaves part (require_expense_type_in_org type org)
  unfolding require_expense_type_in_org
  type-Leaves type org = search leaves_rules

  pub rules-Leaves :
      (t : ExpenseType) (amount : ℕ) (receipts : List (String × Option String))
      → Leaves part (check_expense_type_rules t amount receipts)
  unfolding check_expense_type_rules
  rules-Leaves t amount receipts = search leaves_rules

module _ (employee org project type amount date : ℕ) (description : Option String)
    (receipts : List (String × Option String)) where
  abbrev writes : Exec Db (Expense × List ExpenseMedia × List Notification)
  writes = submit_writes employee org project type amount date description receipts

  writes-Step : (d : Db) → ExpenseStep org d.expenses (writes d).1.expenses
  unfolding submit_writes
  writes-Step d =
      after-Step (create employee project org type amount date description)
        (record_submit employee org project amount receipts)
        (record_submit-core employee org project amount receipts)
        (create-Step employee org project type amount date description d)

  transaction-Step : (d : Db) → ExpenseStep org d.expenses (transaction writes d).1.expenses
  unfolding transaction
  transaction-Step d = undo-Step d (writes d) (writes-Step d)

  abbrev detail :
      Expense × List ExpenseMedia × List Notification
      → Exec Db (ExpenseResponse × List Notification)
  detail w = load_detail w.0.expense_id org (some w.1) >>= λ r. pure (r, w.2)

  typed-Step :
      (t : ExpenseType) (d : Db)
      → ExpenseStep org d.expenses
          (submit_typed employee org project type amount date description receipts t d).1.expenses
  unfolding submit_typed
  typed-Step t d =
      before-Step (check_expense_type_rules t amount receipts) (λ _. transaction writes >>= detail)
        d (rules-Leaves (λ s. s) t amount receipts)
        (λ _. after-Step (transaction writes) detail (λ w. search core_rules) (transaction-Step d))

  -- `submit`, whatever its result, changes the expenses by a step of its organization.
  pub submit-Step :
      (d : Db)
      → ExpenseStep org d.expenses
          (submit employee org project type amount date description receipts d).1.expenses
  unfolding submit
  submit-Step d =
      before-Step (require_member employee org) _ d (require_member-Leaves (λ s. s) employee org)
        (λ _.
          before-Step (require_project_in_org project org) _ d (project-Leaves (λ s. s) project org)
            (λ _.
              before-Step (require_expense_type_in_org type org)
                (submit_typed employee org project type amount date description receipts) d
                (type-Leaves (λ s. s) type org) (λ t. typed-Step t d)))
