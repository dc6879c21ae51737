-- ===== src/Portal/History.antt =====
-- What a sequence of requests may do to an expense, and to the tables.
use ats_onework.Prelude.{
  ℕ, true, some, List, [], ◌∷◌, ◌≡◌, ◌≢◌, refl, sym, subst, ◌∙◌, inl, inr, find, All,
}
use ats_onework.Constants.{ExpenseStatus, expense_transitions}
use ats_onework.Schema.{Db, Expense}
use ats_onework.Expenses.Repository.{has_id}
use ats_onework.Expenses.Step.{SameClaim, SameClaim-refl}
use ats_onework.Expenses.Legal.{IsKeyed, Tracked, Step-Tracked}
use ats_onework.Reimbursements.Step.{PayStep}
use ats_onework.Reimbursements.Paid.{IsSound, PayStep-IsSound}
use ats_onework.Portal.{Request, dispatch, serve, run, at_time}
use ats_onework.Portal.Steps.{dispatch-Step, idle-Step}

-- A status that another one can become along `EXPENSE_TRANSITIONS`.
pub data Reaches (s : ExpenseStatus) : ExpenseStatus → Type 0 where
  here : Reaches s s
  next : {t u : ExpenseStatus} → Reaches s t → expense_transitions t u ≡ true → Reaches s u

-- One expense before and after some requests.
pub record Lived (e e' : Expense) : Type 0 where
  pub claim : SameClaim e e'
  pub status : Reaches e.status e'.status

SameClaim-trans : {e f g : Expense} → SameClaim e f → SameClaim f g → SameClaim e g
SameClaim-trans p q = record {
  expense_id = q.expense_id ∙ p.expense_id;
  employee_id = q.employee_id ∙ p.employee_id;
  organization_id = q.organization_id ∙ p.organization_id;
  project_id = q.project_id ∙ p.project_id;
  amount = q.amount ∙ p.amount;
}

Reaches-trans : {s t u : ExpenseStatus} → Reaches s t → Reaches t u → Reaches s u
Reaches-trans p here = p
Reaches-trans p (next q legal) = next (Reaches-trans p q) legal

Tracked-Lived : {org : ℕ} {e f : Expense} → Tracked org e f → Lived e f
Tracked-Lived {e} {f} t = record {
  claim = t.claim;
  status = elim t.legal [
    | inl same ↦ subst (Reaches e.status) (sym same) here
    | inr legal ↦ next here legal
  ];
}

-- A request is a step of its organization, committed or rolled back.
serve-Step :
    (r : Request) (d : Db)
    → IsKeyed d.expenses
    → PayStep r.organization_id (at_time r.at d) (serve r d).1
unfolding serve
serve-Step r d keyed =
    idle-Step (at_time r.at d) (dispatch r.actor r.organization_id r.call (at_time r.at d))
      (dispatch-Step r.actor r.organization_id r.call (at_time r.at d) keyed)

at_time-IsSound : (t : ℕ) {d : Db} → IsSound d → IsSound (at_time t d)
at_time-IsSound t s = record {
  keyed = s.keyed;
  distinct = s.distinct;
  below = s.below;
  single = s.single;
  settled = s.settled;
}

pub serve-IsSound : (r : Request) (d : Db) → IsSound d → IsSound (serve r d).1
serve-IsSound r d s = PayStep-IsSound (at_time-IsSound r.at s) (serve-Step r d s.keyed)

-- In sound tables, any sequence of writing requests keeps the tables sound: primary keys are distinct
-- and below their sequence, an expense has at most one reimbursement, and the expense of every paid
-- reimbursement is reimbursed.
pub run-IsSound : (rs : List Request) (d : Db) → IsSound d → IsSound (run rs d)
unfolding run
run-IsSound [] d s = s
run-IsSound (r ∷ rest) d s = run-IsSound rest (serve r d).1 (serve-IsSound r d s)

serve-Tracked :
    (r : Request) (d : Db) (k : ℕ) (e : Expense)
    → IsSound d
    → find (has_id k) d.expenses.rows ≡ some e
    → (f : Expense) × (find (has_id k) (serve r d).1.expenses.rows ≡ some f)
      × Tracked r.organization_id e f
serve-Tracked r d k e s found = Step-Tracked s.keyed (serve-Step r d s.keyed).expenses k e found

-- In sound tables, whatever the requests, an expense is still there, with its employee,
-- organization, project and amount, and its status is one that `EXPENSE_TRANSITIONS` leads to.
pub run-Lived :
    (rs : List Request) (d : Db) (k : ℕ) (e : Expense)
    → IsSound d
    → find (has_id k) d.expenses.rows ≡ some e
    → (f : Expense) × (find (has_id k) (run rs d).expenses.rows ≡ some f) × Lived e f
unfolding run
run-Lived [] d k e s found = (e, found, record { claim = SameClaim-refl e; status = here })
run-Lived (r ∷ rest) d k e s found =
    let once = serve-Tracked r d k e s found in
    let first = Tracked-Lived once.2 in
    let last = run-Lived rest (serve r d).1 k once.0 (serve-IsSound r d s) once.1 in
    (
      last.0,
      last.1,
      record {
        claim = SameClaim-trans first.claim last.2.claim;
        status = Reaches-trans first.status last.2.status;
      },
    )

-- In sound tables, requests that all belong to other organizations leave an expense as it is.
pub run-foreign :
    (rs : List Request) (d : Db) (k : ℕ) (e : Expense)
    → IsSound d
    → find (has_id k) d.expenses.rows ≡ some e
    → All (λ r. e.organization_id ≢ r.organization_id) rs
    → find (has_id k) (run rs d).expenses.rows ≡ some e
unfolding run
run-foreign [] d k e s found other = found
run-foreign (r ∷ rest) d k e s found other =
    let once = serve-Tracked r d k e s found in
    let same = once.2.foreign other.0 in
    run-foreign rest (serve r d).1 k e (serve-IsSound r d s)
      (subst (λ x. find (has_id k) (serve r d).1.expenses.rows ≡ some x) same once.1) other.1

-- The two statuses that nothing leaves.
pub data IsFinal : ExpenseStatus → Type 0 where
  rejected : IsFinal ExpenseStatus.rejected
  reimbursed : IsFinal ExpenseStatus.reimbursed

final-stays : {s t : ExpenseStatus} → IsFinal s → Reaches s t → t ≡ s
unfolding expense_transitions
final-stays final here = refl
final-stays rejected (next {t = t} {u = u} path legal) =
    absurd (cc (subst (λ x. expense_transitions x u ≡ true) (final-stays rejected path) legal))
final-stays reimbursed (next {t = t} {u = u} path legal) =
    absurd (cc (subst (λ x. expense_transitions x u ≡ true) (final-stays reimbursed path) legal))

-- In sound tables, an expense that is rejected or reimbursed has that status whatever the requests.
pub run-IsFinal :
    (rs : List Request) (d : Db) (k : ℕ) (e : Expense)
    → IsSound d
    → find (has_id k) d.expenses.rows ≡ some e
    → IsFinal e.status
    → (f : Expense) × (find (has_id k) (run rs d).expenses.rows ≡ some f) × (f.status ≡ e.status)
run-IsFinal rs d k e s found final =
    let after = run-Lived rs d k e s found in (after.0, after.1, final-stays final after.2.status)
