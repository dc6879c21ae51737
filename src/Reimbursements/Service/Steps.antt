-- ===== src/Reimbursements/Service/Steps.antt =====
-- The methods of `ReimbursementService` as steps of both tables.
use ats_onework.Prelude.{
  ℕ, String, Option, none, some, ◌≡◌, refl, sym, ap, ◌∙◌, arith, ◌<◌, false, find, find_sound,
  find-Mem, update, ◌&&◌, not,
}
use ats_onework.Prelude.Text.{strip, is_empty, or_empty}
use ats_onework.Exec.{Exec, Error, ok, ◌>>=◌, gets, or_raise, raise_if}
use ats_onework.Exec.Frame.{Leaves, Leaves-raise_if}
use ats_onework.Exec.Inversion.{
  >>=-eq-ok, or_raise-bind-eq-ok, raise_if-bind-eq-ok, transaction_cases, guard_cases,
}
use ats_onework.Constants.{ExpenseStatus, ReimbursementStatus, eq_expense}
use ats_onework.Schema.{Db, Expense, Reimbursement, insert_row, set_rows}
use ats_onework.Tenant.{require_admin}
use ats_onework.Tenant.Guards.{require_admin-Leaves}
use ats_onework.Expenses.Frame.{core, core_rules}
use ats_onework.Expenses.Repository.{has_key}
use ats_onework.Expenses.Legal.{IsKeyed}
use ats_onework.Expenses.Step.{ExpenseStep}
use ats_onework.Reimbursements.Repository.{
  get_expense, get_by_id, has_reimbursement_key, has_id, for_expense, create, new_reimbursement,
  with_receipt, set_payment_receipt,
}
use ats_onework.Reimbursements.Step.{PayStep, inserted, annotated}
use ats_onework.Reimbursements.Service.{
  log_created, create_row, create_for_expense, with_locked, is_paid, transition_row, transition,
  log_receipt, attach_row, attach_payment_receipt,
}
use ats_onework.Reimbursements.Service.Moves.{idle, PayStep-core, key_parts, transition_row-Step}

log_created-core : (a o e m : ℕ) (r : Reimbursement) → Leaves core (log_created a o e m r)
unfolding log_created
log_created-core a o e m r = search core_rules

create-rows :
    (e emp org amount : ℕ) (ref : Option String) (d : Db) {r : Reimbursement} {u : Db}
    → create e emp org amount ref d ≡ (ok r, u)
    → (0 < amount)
      × (find (for_expense e) d.reimbursements.rows ≡ none)
      × (u ≡ record d {
        reimbursements = insert_row (new_reimbursement d.now e emp org amount ref) d.reimbursements;
      })
unfolding create
create-rows e emp org amount ref d h = ground arith

approved-eq :
    (s : ExpenseStatus)
    → not (eq_expense s ExpenseStatus.approved) ≡ false
    → s ≡ ExpenseStatus.approved
approved-eq s h = ground arith

module _ (actor org id : ℕ) (ref : Option String) (d : Db) where
  create_row-Step :
      (expense : Expense)
      → find (has_key id org) d.expenses.rows ≡ some expense
      → (r : Reimbursement) (u : Db) → create_row actor org id ref expense d ≡ (ok r, u)
      → PayStep org d u
  unfolding create_row
  create_row-Step expense found r u h =
      let call = create id expense.employee_id org expense.amount ref in
      let log_it = log_created actor org id expense.amount in
      let (open_to_pay, done) =
        raise_if-bind-eq-ok (not (eq_expense expense.status ExpenseStatus.approved)) Error.conflict
          (call >>= log_it) d h in
      let (row, d1, created, logged) = >>=-eq-ok call log_it d done in
      let (positive, free, e1) =
        create-rows id expense.employee_id org expense.amount ref d created in
      let key = (find_sound (has_key id org) d.expenses.rows found) in
      let step : PayStep org d d1 = rw e1 (record {
        expenses = ExpenseStep.unchanged refl;
        reimbursements =
            inserted (new_reimbursement d.now id expense.employee_id org expense.amount ref) id
              (λ k. refl) (λ k. refl) (λ k. refl)
              (record {
                expense = expense;
                is_row = find-Mem (has_key id org) d.expenses.rows found;
                of_key = ground (arith, key);
                of_organization = ground (arith, key);
                approved = approved-eq expense.status open_to_pay;
                organization_id = λ k. refl;
                employee_id = λ k. refl;
                total_amount = λ k. refl;
                positive = positive;
              })
              free refl;
      }) in
      let same = (log_created-core actor org id expense.amount row).at d1 in
      PayStep-core d1 u (rw logged at same) step

log_receipt-core :
    (a o id : ℕ) (url : String) (r : Option Reimbursement) → Leaves core (log_receipt a o id url r)
unfolding log_receipt
log_receipt-core a o id url r = search core_rules

-- The transaction of a method, by its runs that return.
locked-Step :
    (id org : ℕ) (method : Reimbursement → Exec Db Reimbursement) (d : Db)
    → ((current : Reimbursement)
        → find (has_reimbursement_key id org) d.reimbursements.rows ≡ some current
        → (r : Reimbursement) (u : Db) → method current d ≡ (ok r, u)
        → PayStep org d u)
    → PayStep org d (with_locked id org method d).1
unfolding with_locked
locked-Step id org method d h =
    transaction_cases (PayStep org d)
      (gets (get_by_id id org) >>= λ found. or_raise found Error.not_found >>= method) d
      (idle org d)
      λ r u e.
        let (current, found, done) =
          or_raise-bind-eq-ok (get_by_id id org d) Error.not_found method d e in
        h current found r u done

set-rows :
    (id : ℕ) (url : String) (d u : Db) {o : Option Reimbursement}
    → set_payment_receipt id url d ≡ (ok o, u)
    → u ≡ record d {
      reimbursements =
          set_rows
            (update (has_id id) (with_receipt url d.now) d.reimbursements.rows)
            d.reimbursements;
    }
unfolding set_payment_receipt
set-rows id url d u h = cc

attach_row-Step :
    (actor org id : ℕ) (url : String) (d : Db) (current : Reimbursement)
    → find (has_reimbursement_key id org) d.reimbursements.rows ≡ some current
    → (r : Reimbursement) (u : Db) → attach_row actor org id url current d ≡ (ok r, u)
    → PayStep org d u
unfolding attach_row
attach_row-Step actor org id url d current found r u h =
    let log_it = log_receipt actor org id url in
    let (_, h1) =
      raise_if-bind-eq-ok (not (is_paid current.status)) Error.conflict
        (set_payment_receipt id url >>= log_it) d h in
    let (o, d1, stored, logged) = >>=-eq-ok (set_payment_receipt id url) log_it d h1 in
    let e1 = set-rows id url d d1 stored in
    let parts = key_parts id org d.reimbursements.rows current found in
    let same = (log_receipt-core actor org id url o).at d1 in
    PayStep-core d1 u (rw logged at same) (record {
      expenses = ExpenseStep.unchanged (ap (λ x. x.expenses) e1);
      reimbursements =
          annotated (has_reimbursement_key id org) (with_receipt url d.now) current found parts.1
            (λ x. record {
              reimbursement_id = refl;
              expense_id = refl;
              employee_id = refl;
              organization_id = refl;
              total_amount = refl;
            })
            (λ x. refl)
            (ap (λ x. x.reimbursements) e1
              ∙ ap
                  (λ i.
                    set_rows (update (has_id i) (with_receipt url d.now) d.reimbursements.rows)
                      d.reimbursements)
                  (sym parts.0));
    })

module _ (actor org : ℕ) (d : Db) where
  -- `create_for_expense`, whatever its result, changes the tables by a step of its organization.
  pub create_for_expense-Step :
      (id : ℕ) (ref : Option String) → PayStep org d (create_for_expense actor org id ref d).1
  unfolding create_for_expense
  create_for_expense-Step id ref =
      let method = create_row actor org id ref in
      guard_cases (PayStep org d) (require_admin actor org) _ d
        (require_admin-Leaves (λ s. s) actor org) (idle org d)
        λ _.
          transaction_cases (PayStep org d)
            (gets (get_expense id org) >>= λ found. or_raise found Error.not_found >>= method) d
            (idle org d)
            λ r u e.
              let (expense, found, done) =
                or_raise-bind-eq-ok (get_expense id org d) Error.not_found method d e in
              create_row-Step actor org id ref d expense found r u done

  -- `transition` too, if the keys of the expenses are distinct.
  pub transition-Step :
      (id : ℕ) (target : ReimbursementStatus) (ref : Option String)
      → IsKeyed d.expenses
      → PayStep org d (transition actor org id target ref d).1
  unfolding transition
  transition-Step id target ref keyed =
      let method = transition_row actor org id target ref in
      let unproved = is_paid target && is_empty (strip (or_empty ref)) in
      guard_cases (PayStep org d) (require_admin actor org) _ d
        (require_admin-Leaves (λ s. s) actor org) (idle org d)
        λ _.
          guard_cases (PayStep org d) (raise_if unproved Error.validation)
            (λ _. with_locked id org method) d (Leaves-raise_if unproved Error.validation)
            (idle org d)
            λ _. locked-Step id org method d λ current found r u.
              transition_row-Step actor org id target ref d current keyed found r u

  -- `attach_payment_receipt` too.
  pub attach_payment_receipt-Step :
      (id : ℕ) (url : String) → PayStep org d (attach_payment_receipt actor org id url d).1
  unfolding attach_payment_receipt
  attach_payment_receipt-Step id url =
      guard_cases (PayStep org d) (require_admin actor org) _ d
        (require_admin-Leaves (λ s. s) actor org) (idle org d)
        λ _.
          locked-Step id org (attach_row actor org id url) d
            λ current found r u. attach_row-Step actor org id url d current found r u
