-- ===== src/Reimbursements/Service/Moves.antt =====
-- `transition` on the locked row, as a step of both tables.
use ats_onework.Prelude.{
  ℕ, String, Bool, true, false, Option, some, List, ◌≡◌, refl, sym, ap, subst, ◌∙◌, arith, find,
  find_sound, find-update-some, find_by_key, update, Option-cases, inl, inr, not,
}
use ats_onework.Exec.{Error, ok, ◌>>=◌, ◌>>◌, or_raise, pure}
use ats_onework.Exec.Frame.{Leaves}
use ats_onework.Exec.Inversion.{>>=-eq-ok, or_raise-bind-eq-ok, raise_if-bind-eq-ok}
use ats_onework.Constants.{
  ExpenseStatus, ReimbursementStatus, reimbursement_transitions, expense_transitions,
}
use ats_onework.Schema.{Db, Expense, Reimbursement, Table, set_rows}
use ats_onework.Expenses.Frame.{core, core_rules}
use ats_onework.Expenses.Repository.{has_key, stamped, refuse, update_expense}
use ats_onework.Expenses.Repository as ExpenseRows
use ats_onework.Expenses.Legal.{IsKeyed}
use ats_onework.Expenses.Step.{ExpenseStep}
use ats_onework.Reimbursements.Repository.{
  has_reimbursement_key, has_id, moved_to, update_transition, is_payable, reimbursed,
  mark_expense_reimbursed,
}
use ats_onework.Reimbursements.Step.{SameTerms, IsReimbursed, PayStep, unchanged, moved}
use ats_onework.Reimbursements.Service.{
  is_paid, settle, record_transition, after_transition, transition_row,
}

pub idle : (org : ℕ) (d : Db) → PayStep org d d
idle org d = record { expenses = ExpenseStep.unchanged refl; reimbursements = unchanged refl }

-- Bookkeeping after a step.
pub PayStep-core :
    {org : ℕ} {d : Db} (u u' : Db) → core u' ≡ core u → PayStep org d u → PayStep org d u'
PayStep-core {org} {d} u u' same step =
    let moved_on =
      subst (PayStep org d) (sym same)
        (record { expenses = step.expenses; reimbursements = step.reimbursements }) in
    record { expenses = moved_on.expenses; reimbursements = moved_on.reimbursements }

record_transition-core :
    (a o id : ℕ) (s : ReimbursementStatus) (r r' : Reimbursement)
    → Leaves core (record_transition a o id s r r')
unfolding record_transition
record_transition-core a o id s r r' = search core_rules

-- A payable expense was found, and is reimbursed now.
mark-rows :
    (id org : ℕ) (d u : Db) {o : Option Expense} {x : Expense}
    → mark_expense_reimbursed id org d ≡ (ok o, u)
    → o ≡ some x
    → (e : Expense) × (find (is_payable id org) d.expenses.rows ≡ some e)
      × (u ≡ record d {
        expenses =
            set_rows
              (update (is_payable id org) (stamped d.now reimbursed) d.expenses.rows)
              d.expenses;
      })
unfolding mark_expense_reimbursed update_expense refuse
mark-rows id org d u h found = elim (Option-cases (find (is_payable id org) d.expenses.rows)) [
  | inl e ↦ absurd (ground arith)
  | inr (old, e) ↦ (old, e, ground arith)
]

moved_to-SameTerms :
    (s : ReimbursementStatus) (ref : Option String) (now : ℕ) (r : Reimbursement)
    → SameTerms r (moved_to s ref now r)
moved_to-SameTerms s ref now r = ground arith

moved_to-status :
    (s : ReimbursementStatus) (ref : Option String) (now : ℕ) (r : Reimbursement)
    → (moved_to s ref now r).status ≡ s
moved_to-status s ref now r = ground arith

is_paid-eq : (s : ReimbursementStatus) → s ≡ ReimbursementStatus.paid → is_paid s ≡ true
is_paid-eq s e = rw e

pub key_parts :
    (id org : ℕ) (rows : List Reimbursement) (row : Reimbursement)
    → find (has_reimbursement_key id org) rows ≡ some row
    → (row.reimbursement_id ≡ id) × (row.organization_id ≡ org)
key_parts id org rows row found =
    ground (arith, find_sound (has_reimbursement_key id org) rows found)

payable_parts :
    (k org : ℕ) (e : Expense)
    → is_payable k org e ≡ true
    → (e.expense_id ≡ k)
      × (e.organization_id ≡ org)
      × (expense_transitions e.status ExpenseStatus.reimbursed ≡ true)
unfolding expense_transitions
payable_parts k org e h = ground arith

settled_row :
    (k org now : ℕ) (t : Table Expense) (e : Expense)
    → IsKeyed t
    → find (is_payable k org) t.rows ≡ some e
    → IsReimbursed (set_rows (update (is_payable k org) (stamped now reimbursed) t.rows) t) k
settled_row k org now t e keyed found =
    let pays = find_sound (is_payable k org) t.rows found in
    let by_key = find_by_key (λ x. x.expense_id) (is_payable k org) t.rows keyed.distinct found in
    let at_k =
      subst (λ i. find (ExpenseRows.has_id i) t.rows ≡ some e) (payable_parts k org e pays).0
        by_key in
    let after =
      find-update-some (ExpenseRows.has_id k) (is_payable k org) (stamped now reimbursed) t.rows
        (λ x. refl) at_k in
    (stamped now reimbursed e, rw pays at after, refl)

-- `settle` marks the expense of a paid reimbursement, and does nothing else.
settle-Step :
    (paid : Bool) (k org : ℕ) (d u : Db) {a : Unit {0}}
    → IsKeyed d.expenses
    → settle paid k org d ≡ (ok a, u)
    → ExpenseStep org d.expenses u.expenses
      × (paid ≡ true → IsReimbursed u.expenses k)
      × (u.reimbursements ≡ d.reimbursements)
unfolding settle
settle-Step false k org d u keyed h =
    let same : u ≡ d = cc in
    (ExpenseStep.unchanged (ap (λ x. x.expenses) same), λ p. cc, ap (λ x. x.reimbursements) same)
settle-Step true k org d u keyed h =
    let (o, d1, marked, h1) =
      >>=-eq-ok (mark_expense_reimbursed k org) (λ m. or_raise m Error.conflict >> pure tt) d h in
    let (x, some_x, h2) = or_raise-bind-eq-ok o Error.conflict (λ _. pure tt) d1 h1 in
    let (e, found, e1) = mark-rows k org d d1 marked some_x in
    let same : u ≡ d1 = cc in
    let parts = payable_parts k org e (find_sound (is_payable k org) d.expenses.rows found) in
    rw (same, e1)
      (
        ExpenseStep.moved (is_payable k org) (is_payable k org) (stamped d.now reimbursed) e found
            parts.1 (λ y hy. (payable_parts k org y hy).0 ∙ sym parts.0)
            (λ y. record {
              expense_id = refl;
              employee_id = refl;
              organization_id = refl;
              project_id = refl;
              amount = refl;
            })
            (λ y. parts.2) refl,
        λ _. settled_row k org d.now d.expenses e keyed found,
        refl,
      )

update-rows :
    (id : ℕ) (s : ReimbursementStatus) (ref : Option String) (d u : Db) {o : Option Reimbursement}
    → update_transition id s ref d ≡ (ok o, u)
    → u ≡ record d {
      reimbursements =
          set_rows
            (update (has_id id) (moved_to s ref d.now) d.reimbursements.rows)
            d.reimbursements;
    }
unfolding update_transition
update-rows id s ref d u h = cc

module _ (actor org id : ℕ) (target : ReimbursementStatus) (ref : Option String) (d : Db) where
  pub transition_row-Step :
      (current : Reimbursement)
      → IsKeyed d.expenses
      → find (has_reimbursement_key id org) d.reimbursements.rows ≡ some current
      → (r : Reimbursement) (u : Db) → transition_row actor org id target ref current d ≡ (ok r, u)
      → PayStep org d u
  unfolding transition_row after_transition
  transition_row-Step current keyed found r u h =
      let k = current.expense_id in
      let log_it = record_transition actor org id target current in
      let after = after_transition actor org id target current in
      let (checked, h1) =
        raise_if-bind-eq-ok (not (reimbursement_transitions current.status target)) Error.conflict
          (update_transition id target ref >>= after) d h in
      let (o, d1, updated, h2) = >>=-eq-ok (update_transition id target ref) after d h1 in
      let (row, _, h3) =
        or_raise-bind-eq-ok o Error.assertion (λ x. settle (is_paid target) k org >> log_it x) d1
          h2 in
      let (_, d2, settled, logged) =
        >>=-eq-ok (settle (is_paid target) k org) (λ _. log_it row) d1 h3 in
      let same = (record_transition-core actor org id target current row).at d2 in
      let e1 = update-rows id target ref d d1 updated in
      let (expenses, paid, kept) = settle-Step (is_paid target) k org d1 d2 (rw e1 keyed) settled in
      let parts = key_parts id org d.reimbursements.rows current found in
      PayStep-core d2 u (rw logged at same) (record {
        expenses = subst (λ x. ExpenseStep org x d2.expenses) (ap (λ x. x.expenses) e1) expenses;
        reimbursements =
            moved (has_reimbursement_key id org) (moved_to target ref d.now) current target found
              parts.1 (moved_to-SameTerms target ref d.now) (moved_to-status target ref d.now)
              (ground arith) (λ p. paid (is_paid-eq target p))
              (kept
                ∙ ap (λ x. x.reimbursements) e1
                ∙ ap
                    (λ i.
                      set_rows (update (has_id i) (moved_to target ref d.now) d.reimbursements.rows)
                        d.reimbursements)
                    (sym parts.0));
      })
