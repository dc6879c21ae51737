-- ===== src/Expenses/Step.antt =====
-- What one call may do to the table of expenses, whatever its method and its result.
use ats_onework.Prelude.{
  ℕ, String, Bool, true, Option, some, ◌≡◌, refl, subst, ap, sym, arith, find, find_sound, update,
  ◌⊎◌, inl, inr,
}
use ats_onework.Exec.{Exec, Result, ok, err, ◌>>=◌, undo, continue}
use ats_onework.Exec.Frame.{Leaves, continue-part}
use ats_onework.Expenses.Frame.{core}
use ats_onework.Constants.{ExpenseStatus, expense_transitions}
use ats_onework.Schema.{Db, Table, Expense, insert_row, set_rows}
use ats_onework.Expenses.Repository.{
  has_key, has_id, set_status, stamped, update_expense, update_status, refuse,
}

-- The columns that no method changes.
pub record SameClaim (e e' : Expense) : Type 0 where
  pub expense_id : e'.expense_id ≡ e.expense_id
  pub employee_id : e'.employee_id ≡ e.employee_id
  pub organization_id : e'.organization_id ≡ e.organization_id
  pub project_id : e'.project_id ≡ e.project_id
  pub amount : e'.amount ≡ e.amount

pub SameClaim-refl : (e : Expense) → SameClaim e e
SameClaim-refl e = record {
  expense_id = refl;
  employee_id = refl;
  organization_id = refl;
  project_id = refl;
  amount = refl;
}

-- In organization `org`: nothing, a new pending expense, or a change of one expense's status along
-- `EXPENSE_TRANSITIONS`.
pub data ExpenseStep (org : ℕ) (s t : Table Expense) : Type 0 where
  unchanged : t ≡ s → ExpenseStep org s t
  inserted :
      (row : ℕ → Expense)
      → ((id : ℕ) → (row id).expense_id ≡ id)
      → ((id : ℕ) → (row id).organization_id ≡ org)
      → ((id : ℕ) → (row id).status ≡ ExpenseStatus.pending)
      → t ≡ insert_row row s
      → ExpenseStep org s t
  moved :
      (q p : Expense → Bool) (f : Expense → Expense) (row : Expense)
      → find q s.rows ≡ some row
      → row.organization_id ≡ org
      → ((e : Expense) → p e ≡ true → e.expense_id ≡ row.expense_id)
      → ((e : Expense) → SameClaim e (f e))
      → ((e : Expense) → expense_transitions row.status (f e).status ≡ true)
      → t ≡ set_rows (update p f s.rows) s
      → ExpenseStep org s t

set_status-SameClaim :
    (e : Expense) (s : ExpenseStatus) (reason msg : Option String) (at : Option ℕ)
    (resp : Option String) {now : ℕ}
    → SameClaim e (stamped now (set_status s reason msg at resp) e)
set_status-SameClaim e s reason msg at resp = record {
  expense_id = refl;
  employee_id = refl;
  organization_id = refl;
  project_id = refl;
  amount = refl;
}

-- An UPDATE writes its rows, or the database refuses it and nothing is written.
pub update_expense-rows :
    (p : Expense → Bool) (f : Expense → Expense) (d : Db)
    → ((update_expense p f d).1.expenses ≡ d.expenses)
      ⊎ ((update_expense p f d).1.expenses
          ≡ set_rows (update p (stamped d.now f) d.expenses.rows) d.expenses)
unfolding update_expense refuse
update_expense-rows p f d = ground arith

module _ (id org : ℕ) (d : Db) (row : Expense) where
  has_key-parts :
      find (has_key id org) d.expenses.rows ≡ some row
      → (row.expense_id ≡ id) × (row.organization_id ≡ org)
  has_key-parts found = ground (arith, find_sound (has_key id org) d.expenses.rows found)

  pub update_status-Step :
      (s : ExpenseStatus) (reason msg : Option String) (at : Option ℕ) (resp : Option String)
      → find (has_key id org) d.expenses.rows ≡ some row
      → expense_transitions row.status s ≡ true
      → ExpenseStep org d.expenses (update_status id s reason msg at resp d).1.expenses
  unfolding update_status
  update_status-Step s reason msg at resp found legal =
      let same = has_key-parts found in
      elim (update_expense-rows (has_id id) (set_status s reason msg at resp) d) [
        | inl e ↦ unchanged e
        | inr e ↦
            moved (has_key id org) (has_id id) (stamped d.now (set_status s reason msg at resp)) row
              found same.1 (λ x h. ground arith) (λ x. set_status-SameClaim x s reason msg at resp)
              (λ x. legal) e
      ]

-- What follows the UPDATE is bookkeeping.
pub after-Step :
    {A B : Type 0} {org : ℕ} {d : Db} (m : Exec Db A) (f : A → Exec Db B)
    → ((a : A) → Leaves core (f a))
    → ExpenseStep org d.expenses (m d).1.expenses
    → ExpenseStep org d.expenses ((m >>= f) d).1.expenses
after-Step {org} {d} m f keeps =
    subst (ExpenseStep org d.expenses) (sym (ap (λ x. x.expenses) (continue-part f (m d) keeps)))

pub undo-Step :
    {A : Type 0} {org : ℕ} (d : Db) (r : Result A × Db)
    → ExpenseStep org d.expenses r.1.expenses
    → ExpenseStep org d.expenses (undo d r).1.expenses
undo-Step d (ok a, d') h = h
undo-Step d (err e, d') h = unchanged refl

continue-Step :
    {A B : Type 0} {org : ℕ} {d : Db} (f : A → Exec Db B) (r : Result A × Db)
    → r.1 ≡ d
    → ((a : A) → ExpenseStep org d.expenses (f a d).1.expenses)
    → ExpenseStep org d.expenses (continue f r).1.expenses
continue-Step {org} {d} f (ok a, d') e h =
    subst (λ s. ExpenseStep org d.expenses (f a s).1.expenses) (sym e) (h a)
continue-Step f (err x, d') e h = unchanged (ap (λ s. s.expenses) e)

-- What stands before it changes nothing.
pub before-Step :
    {A B : Type 0} {org : ℕ} (m : Exec Db A) (f : A → Exec Db B) (d : Db)
    → Leaves (λ (s : Db). s) m
    → ((a : A) → ExpenseStep org d.expenses (f a d).1.expenses)
    → ExpenseStep org d.expenses ((m >>= f) d).1.expenses
before-Step m f d same h = continue-Step f (m d) (same.at d) h
