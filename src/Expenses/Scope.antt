-- ===== src/Expenses/Scope.antt =====
-- Which expenses the reading methods hand out.
use ats_onework.Prelude.{
  ℕ, Bool, true, false, Option, none, some, ◌≡◌, find, find_sound, find-Mem, Memᴰ, Option-cases,
  refl, ap, sym, subst, ◌∙◌, ◌⊎◌, inl, inr, arith, ◌==◌, ◌&&◌, not,
}
use ats_onework.Exec.{Error, ok}
use ats_onework.Exec.Inversion.{>>=-eq-ok, or_raise-bind-eq-ok, raise_if-bind-eq-ok, pure-eq-ok}
use ats_onework.Schema.{Db, User, Project, ExpenseType, Expense}
use ats_onework.Tenant.{require_member}
use ats_onework.Tenant.Guards.{require_member-eq-ok}
use ats_onework.Permissions.{has_permission}
use ats_onework.Permissions.Holds.{Holds, IsSeat, get_membership-IsSeat, has_permission-Holds}
use ats_onework.Expenses.Repository.{JoinedExpense, has_key, join, join_names, get_by_id}
use ats_onework.Expenses.Response.{ExpenseResponse}
use ats_onework.Expenses.Reads.{get}

seen :
    (row : JoinedExpense) (employee : ℕ) (all : Bool)
    → (not (row.employee_id == employee) && not all) ≡ false
    → (row.employee_id ≡ employee) ⊎ (all ≡ true)
seen row employee true shown = inr refl
seen row employee false shown = inl (ground arith)

join_names-expense :
    (u : Option User) (p : Option Project) (t : Option ExpenseType) (e : Expense)
    {row : JoinedExpense}
    → join_names u p t e ≡ some row
    → row.expense ≡ e
join_names-expense none p t e h = absurd (cc)
join_names-expense (some u) none t e h = absurd (cc)
join_names-expense (some u) (some p) none e h = absurd (cc)
join_names-expense (some u) (some p) (some t) e h = ap expense_of (sym h)
  where
    expense_of : Option JoinedExpense → Expense
    expense_of none = e
    expense_of (some r) = r.expense

-- The row that `get_by_id` gives is a row of the table with that key.
get_by_id-row :
    (id org : ℕ) (d : Db) {row : JoinedExpense}
    → get_by_id id org d ≡ some row
    → Memᴰ row.expense d.expenses.rows
      × (row.expense.expense_id ≡ id)
      × (row.expense.organization_id ≡ org)
unfolding get_by_id join
get_by_id-row id org d {row} h = elim (Option-cases (find (has_key id org) d.expenses.rows)) [
  | inl e ↦ absurd (cc (rw e at h))
  | inr (x, e) ↦
      let hit = find_sound (has_key id org) d.expenses.rows e in
      let same : row.expense ≡ x = join_names-expense _ _ _ x (rw e at h) in
      rw same
        (find-Mem (has_key id org) d.expenses.rows e, ground (arith, hit), ground (arith, hit))
]

-- If `get` returns, it returns an expense of the table that has that number and that organization,
-- the one that `get_by_id` finds, to a member of the organization who filed it or holds
-- `expense.read_all` there by a role or directly, and it changes nothing.
pub get-scope :
    (employee org id : ℕ) (d d' : Db) (r : ExpenseResponse)
    → get employee org id d ≡ (ok r, d')
    → (d' ≡ d)
      × (get_by_id id org d ≡ some r.row)
      × (Memᴰ r.row.expense d.expenses.rows
          × (r.row.expense_id ≡ id)
          × (r.row.organization_id ≡ org))
      × ((admin : Bool) × IsSeat employee org admin d)
      × ((r.row.employee_id ≡ employee) ⊎ Holds employee org "expense.read_all" d)
unfolding get
get-scope employee org id d d' r h =
    let (m, d0, guarded, h1) = >>=-eq-ok (require_member employee org) _ d h in
    let (member, same) = require_member-eq-ok employee org d guarded in
    let (row, found, h2) = or_raise-bind-eq-ok (get_by_id id org d0) Error.not_found _ d0 h1 in
    let all = has_permission employee org "expense.read_all" d0 in
    let hidden = not (row.employee_id == employee) && not all in
    let (shown, h3) = raise_if-bind-eq-ok hidden Error.not_found _ d0 h2 in
    let (back, after) = pure-eq-ok h3 in
    let response : r.row ≡ row = ap (λ x. x.row) back in
    let located : get_by_id id org d ≡ some r.row =
      subst (λ x. get_by_id id org x ≡ some r.row) same
        (subst (λ x. get_by_id id org d0 ≡ some x) (sym response) found) in
    let filed_or_all : (r.row.employee_id ≡ employee) ⊎ (all ≡ true) =
      subst (λ (x : JoinedExpense). (x.employee_id ≡ employee) ⊎ (all ≡ true)) (sym response)
        (seen row employee all shown) in
    (
      after ∙ same,
      located,
      get_by_id-row id org d located,
      (m.is_admin, get_membership-IsSeat employee org d m member),
      elim filed_or_all [
        | inl own ↦ inl own
        | inr can ↦ inr (
            has_permission-Holds employee org "expense.read_all" d
              (subst (λ x. has_permission employee org "expense.read_all" x ≡ true) same can))
      ],
    )
