-- ===== src/Expenses/Review/Decision.antt =====
-- What a decision that returns has checked, and what it has written.
use ats_onework.Prelude.{
  ℕ, String, Bool, true, Option, none, some, ◌≡◌, ◌≢◌, refl, sym, subst, ap, ◌∙◌, arith, ==-refl,
  find_sound, not, ◌==◌, find, find_by_key, find-update-some, update,
}
use ats_onework.Exec.{Error, ok, ◌>>=◌, ◌>>◌, raise_if, gets, or_raise}
use ats_onework.Exec.Inversion.{
  >>=-eq-ok, or_raise-bind-eq-ok, raise_if-bind-eq-ok, transaction-eq-ok,
}
use ats_onework.Constants.{ApprovalAction, expense_transitions}
use ats_onework.Schema.{Db, Table, Expense, Membership, set_rows}
use ats_onework.Tenant.{get_membership, require_admin}
use ats_onework.Tenant.Guards.{require_admin-eq-ok}
use ats_onework.Expenses.Repository.{
  has_key, has_id, set_status, stamped, update_expense, update_status, refuse,
}
use ats_onework.Expenses.Response.{ExpenseResponse}
use ats_onework.Expenses.Legal.{IsKeyed}
use ats_onework.Expenses.Review.{
  decide, decide_row, with_locked, decision_status, reason_for, record_decision,
}
use ats_onework.Expenses.Review.Steps.{record_decision-core}

-- A decision of `actor` on an expense of `org`, and the tables before and after it.
pub record Decided (actor org id : ℕ) (action : ApprovalAction) (d d' : Db) : Type 0 where
  pub member : Membership
  pub is_member : get_membership actor org d.memberships.rows ≡ some member
  pub is_admin : member.is_admin ≡ true
  pub row : Expense
  pub found : find (has_key id org) d.expenses.rows ≡ some row
  pub not_own : row.employee_id ≢ actor
  pub legal : expense_transitions row.status (decision_status action) ≡ true
  pub after : Expense
  pub stored : find (has_id id) d'.expenses.rows ≡ some after
  pub status : after.status ≡ decision_status action

updated-rows :
    (p : Expense → Bool) (f : Expense → Expense) (d d' : Db) {e : Expense}
    → update_expense p f d ≡ (ok (some e), d')
    → d'.expenses ≡ set_rows (update p (stamped d.now f) d.expenses.rows) d.expenses
unfolding update_expense refuse
updated-rows p f d d' h = ground arith

-- What a status change that returns a row has stored.
stored-status :
    (id org : ℕ) (d : Db) (row : Expense) (p : Expense → Bool) (f : Expense → Expense)
    (es : Table Expense)
    → IsKeyed d.expenses
    → find (has_key id org) d.expenses.rows ≡ some row
    → ((e : Expense) → (f e).expense_id ≡ e.expense_id)
    → es ≡ set_rows (update (has_id id) f d.expenses.rows) d.expenses
    → find (has_id id) es.rows ≡ some (f row)
stored-status id org d row p f es keyed found same stored =
    let key : row.expense_id ≡ id =
      ground (arith, find_sound (has_key id org) d.expenses.rows found) in
    let by_id =
      subst (λ k. find (has_id k) d.expenses.rows ≡ some row) key
        (find_by_key (λ e. e.expense_id) (has_key id org) d.expenses.rows keyed.distinct found) in
    let after =
      find-update-some (has_id id) (has_id id) f d.expenses.rows (λ e. ap (λ k. k == id) (same e))
        by_id in
    let hit : has_id id row ≡ true = subst (λ k. (k == id) ≡ true) (sym key) (==-refl id) in
    rw (stored, after, hit) refl

module _ (actor org id : ℕ) (action : ApprovalAction) (comments : Option String) where
  recorded-some :
      (row : Expense) (o : Option Expense) (d1 : Db) {r : ExpenseResponse} {d' : Db}
      → record_decision actor org id action comments row o d1 ≡ (ok r, d')
      → (e : Expense) × (o ≡ some e)
  unfolding record_decision
  recorded-some row none d1 h = cc
  recorded-some row (some e) d1 h = (e, refl)

  recorded-expenses :
      (row : Expense) (o : Option Expense) (d1 d' : Db) {r : ExpenseResponse}
      → record_decision actor org id action comments row o d1 ≡ (ok r, d')
      → d'.expenses ≡ d1.expenses
  recorded-expenses row o d1 d' h =
      let same = (record_decision-core actor org id action comments row o).at d1 in
      ap (λ x. x.expenses) (rw h at same)

  decide_row-eq-ok :
      (m : Membership) (row : Expense) (d d' : Db) {r : ExpenseResponse}
      → IsKeyed d.expenses
      → get_membership actor org d.memberships.rows ≡ some m
      → m.is_admin ≡ true
      → find (has_key id org) d.expenses.rows ≡ some row
      → decide_row actor org id action comments row d ≡ (ok r, d')
      → Decided actor org id action d d'
  unfolding decide_row update_status
  decide_row-eq-ok m row d d' keyed member admin found h =
      let target = decision_status action in
      let change = set_status target (reason_for target comments) none none none in
      let write = update_status id target (reason_for target comments) none none none in
      let record_it = record_decision actor org id action comments row in
      let (other, h1) =
        raise_if-bind-eq-ok (row.employee_id == actor) Error.authorization
          (raise_if (not (expense_transitions row.status target)) Error.conflict
            >> (write >>= record_it))
          d h in
      let (legal, h2) =
        raise_if-bind-eq-ok (not (expense_transitions row.status target)) Error.conflict
          (write >>= record_it) d h1 in
      let (o, d1, written, recorded) = >>=-eq-ok write record_it d h2 in
      let (e, some_row) = recorded-some row o d1 recorded in
      let rows =
        updated-rows (has_id id) change d d1 (subst (λ x. write d ≡ (ok x, d1)) some_row written) in
      record {
        member = m;
        is_member = member;
        is_admin = admin;
        row = row;
        found = found;
        not_own = ground (arith, other);
        legal = ground (arith, legal);
        after = stamped d.now change row;
        stored =
            stored-status id org d row (has_id id) (stamped d.now change) d'.expenses keyed found
              (λ x. refl) (recorded-expenses row o d1 d' recorded ∙ rows);
        status = refl;
      }

  -- If the keys of the expenses are distinct, a decision that returns was made by an administrator of
  -- the organization, on an expense of that organization that another employee filed, from a status
  -- that `EXPENSE_TRANSITIONS` allows, and the stored expense has the status of the decision.
  pub decide_sound :
      (d d' : Db) (r : ExpenseResponse)
      → IsKeyed d.expenses
      → decide actor org id action comments d ≡ (ok r, d')
      → Decided actor org id action d d'
  unfolding decide with_locked
  decide_sound d d' r keyed h =
      let method = decide_row actor org id action comments in
      let (m, d0, guarded, h1) =
        >>=-eq-ok (require_admin actor org) (λ _. with_locked id org method) d h in
      let (member, admin, same) = require_admin-eq-ok actor org d guarded in
      let body = gets (λ x. find (has_key id org) x.expenses.rows) in
      let h2 =
        transaction-eq-ok (body >>= λ f. or_raise f Error.not_found >>= method) d
          (subst (λ x. with_locked id org method x ≡ (ok r, d')) same h1) in
      let (row, found, h3) =
        or_raise-bind-eq-ok (find (has_key id org) d.expenses.rows) Error.not_found method d h2 in
      decide_row-eq-ok m row d d' keyed member admin found h3
