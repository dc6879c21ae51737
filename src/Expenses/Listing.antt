-- ===== src/Expenses/Listing.antt =====
-- Which expenses a list hands out.
use ats_onework.Prelude.{
  ℕ, ◌≤◌, Bool, true, false, Option, none, some, List, [], ◌∷◌, ◌≡◌, refl, sym, subst, ◌⊎◌, inl,
  inr, ◌∙◌, arith, if◌then◌else◌, Option-cases, length, select, All, All-map,
}
use ats_onework.Exec.{ok}
use ats_onework.Exec.Inversion.{>>=-eq-ok, pure-eq-ok}
use ats_onework.Constants.{ExpenseStatus}
use ats_onework.Schema.{Db, Expense, Membership, User, Project, ExpenseType}
use ats_onework.Tenant.{get_membership, require_member}
use ats_onework.Tenant.Guards.{require_member-eq-ok}
use ats_onework.Permissions.{has_permission}
use ats_onework.Paging.Laws.{select-All, newest-All, length-newest-le}
use ats_onework.Expenses.Repository.{JoinedExpense, join_names, join, join_all, listed, list_by_org}
use ats_onework.Expenses.Reads.{list_expenses}

join_names-expense :
    (u : Option User) (p : Option Project) (t : Option ExpenseType) (e : Expense)
    (j : JoinedExpense)
    → join_names u p t e ≡ some j
    → j.expense ≡ e
join_names-expense (some u) (some p) (some t) e j h = ground arith
join_names-expense none p t e j h = cc
join_names-expense (some u) none t e j h = cc
join_names-expense (some u) (some p) none e j h = cc

join-expense : (d : Db) (e : Expense) (j : JoinedExpense) → join d e ≡ some j → j.expense ≡ e
unfolding join
join-expense d e j h = join_names-expense _ _ _ e j h

join_all-All :
    (P : Expense → Type 0) (d : Db) (es : List Expense)
    → All P es
    → All (λ (j : JoinedExpense). P j.expense) (join_all d es)
unfolding join_all
join_all-All P d [] all = tt
join_all-All P d (e ∷ es) all =
    let rest = join_all-All P d es all.1 in
    elim (Option-cases (join d e)) [
      | inl h ↦ rw h rest
      | inr (j, h) ↦ rw h (subst P (sym (join-expense d e j h)) all.0, rest)
    ]

-- A row that the caller may see.
abbrev pub Visible : ℕ → ℕ → Bool → Expense → Type 0
Visible employee org all e = (e.organization_id ≡ org) × ((e.employee_id ≡ employee) ⊎ (all ≡ true))

listed-Visible :
    (employee org : ℕ) (status : Option ExpenseStatus) (from to before : Option ℕ) (all : Bool)
    (e : Expense)
    → listed org status from to before (if all then none else some employee) e ≡ true
    → Visible employee org all e
listed-Visible employee org status from to before true e h = (ground arith, inr refl)
listed-Visible employee org status from to before false e h = (ground arith, inl (ground arith))

-- The rows that `list_by_org` gives for a caller.
page-Visible :
    (employee org limit : ℕ) (status : Option ExpenseStatus) (from to before : Option ℕ)
    (all : Bool) (d : Db)
    → (length (list_by_org org status from to limit before (if all then none else some employee) d)
        ≤ limit)
      × All
          (λ (j : JoinedExpense). Visible employee org all j.expense)
          (list_by_org org status from to limit before (if all then none else some employee) d)
unfolding list_by_org
page-Visible employee org limit status from to before all d =
    let p = listed org status from to before (if all then none else some employee) in
    let rows = select p d.expenses.rows in
    let seen =
      All-map (λ e. p e ≡ true) (Visible employee org all) rows
        (listed-Visible employee org status from to before all) (select-All p d.expenses.rows) in
    (
      length-newest-le (λ (j : JoinedExpense). j.expense_id) limit (join_all d rows),
      newest-All (λ (j : JoinedExpense). j.expense_id)
          (λ (j : JoinedExpense). Visible employee org all j.expense) limit (join_all d rows)
          (join_all-All (Visible employee org all) d rows seen),
    )

module _ (employee org limit : ℕ) (status : Option ExpenseStatus) (from to before : Option ℕ) where
  -- If `list` returns, the caller is a member of the organization, nothing is changed, the page has at
  -- most `limit` expenses, all of that organization, and they are the caller's own unless the caller
  -- holds `expense.read_all`.
  pub list_expenses-scope :
      (d d' : Db) (items : List JoinedExpense)
      → list_expenses employee org status from to limit before d ≡ (ok items, d')
      → (d' ≡ d)
        × ((m : Membership) × (get_membership employee org d.memberships.rows ≡ some m))
        × (length items ≤ limit)
        × All
            (λ (j : JoinedExpense).
              Visible employee org (has_permission employee org "expense.read_all" d) j.expense)
            items
  unfolding list_expenses
  list_expenses-scope d d' items h =
      let (m, d0, guarded, h1) = >>=-eq-ok (require_member employee org) _ d h in
      let (member, same) = require_member-eq-ok employee org d guarded in
      let (page, after) = pure-eq-ok h1 in
      let all = has_permission employee org "expense.read_all" d0 in
      let seen = page-Visible employee org limit status from to before all d0 in
      let shown = subst (λ x. length x ≤ limit) (sym page) seen.0 in
      let visible =
        subst (All (λ (j : JoinedExpense). Visible employee org all j.expense)) (sym page) seen.1 in
      (
        after ∙ same,
        (m, member),
        shown,
        subst
            (λ x.
              All
                (λ (j : JoinedExpense).
                  Visible employee org (has_permission employee org "expense.read_all" x) j.expense)
                items)
            same visible,
      )
