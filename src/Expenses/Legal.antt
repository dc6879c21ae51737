-- ===== src/Expenses/Legal.antt =====
-- What an `ExpenseStep` means for each expense: its claim, its status and its organization.
use ats_onework.Prelude.{
  ℕ, ◌<◌, Bool, true, some, List, ◌≡◌, ◌≢◌, refl, sym, subst, ap, ◌⊎◌, inl, inr, ◌==◌, find,
  find_unique, find-update-some, find-append_some, Distinct, Distinct-update, Distinct-append,
  below-append, below-update, All, Bool-cases,
}
use ats_onework.Constants.{expense_transitions}
use ats_onework.Schema.{Table, Expense}
use ats_onework.Expenses.Repository.{has_id}
use ats_onework.Expenses.Step.{SameClaim, SameClaim-refl, ExpenseStep, unchanged, inserted, moved}

-- One expense before and after a call of organization `org`.
pub record Tracked (org : ℕ) (e e' : Expense) : Type 0 where
  pub claim : SameClaim e e'
  pub legal : (e'.status ≡ e.status) ⊎ (expense_transitions e.status e'.status ≡ true)
  pub foreign : e.organization_id ≢ org → e' ≡ e

Tracked-refl : (org : ℕ) (e : Expense) → Tracked org e e
Tracked-refl org e = record { claim = SameClaim-refl e; legal = inl refl; foreign = λ _. refl }

moved-Tracked :
    (org : ℕ) (f : Expense → Expense) (row e : Expense)
    → row ≡ e
    → row.organization_id ≡ org
    → SameClaim e (f e)
    → expense_transitions row.status (f e).status ≡ true
    → Tracked org e (f e)
moved-Tracked org f row e same here claim legal = record {
  claim = claim;
  legal = inr (subst (λ r. expense_transitions r.status (f e).status ≡ true) same legal);
  foreign = λ h. absurd (h (subst (λ r. r.organization_id ≡ org) same here));
}

-- The keys of the table are distinct, and below the next value of its sequence.
pub record IsKeyed (t : Table Expense) : Type 0 where
  pub distinct : Distinct (λ e. e.expense_id) t.rows
  pub below : All (λ e. e.expense_id < t.next_id) t.rows

same_row :
    (rows : List Expense) (q : Expense → Bool) (row e : Expense) (k : ℕ)
    → Distinct (λ x. x.expense_id) rows
    → find q rows ≡ some row
    → find (has_id k) rows ≡ some e
    → e.expense_id ≡ row.expense_id
    → row ≡ e
same_row rows q row e k distinct located found same =
    find_unique (λ x. x.expense_id) q (has_id k) rows distinct located found (sym same)

module _ {org : ℕ} {s t : Table Expense} where
  pub Step-Tracked :
      IsKeyed s
      → ExpenseStep org s t
      → (k : ℕ) (e : Expense) → find (has_id k) s.rows ≡ some e
      → (e' : Expense) × (find (has_id k) t.rows ≡ some e') × Tracked org e e'
  Step-Tracked keyed (unchanged same) k e found = (e, rw same found, Tracked-refl org e)
  Step-Tracked keyed (inserted row key own new same) k e found =
      (e, rw same (find-append_some (has_id k) s.rows _ found), Tracked-refl org e)
  Step-Tracked keyed (moved q p f row located here only claim legal same) k e found =
      let there =
        find-update-some (has_id k) p f s.rows (λ x. ap (λ n. n == k) (claim x).expense_id) found in
      elim (Bool-cases (p e)) [
        | inr other ↦ (e, rw (same, there, other), Tracked-refl org e)
        | inl hit ↦ (
          f e,
          rw (same, there, hit),
          moved-Tracked org f row e
              (same_row s.rows q row e k keyed.distinct located found (only e hit)) here (claim e)
              (legal e),
        )
      ]

  -- The table stays keyed.
  pub Step-IsKeyed : IsKeyed s → ExpenseStep org s t → IsKeyed t
  Step-IsKeyed keyed (unchanged same) = rw same keyed
  Step-IsKeyed keyed (inserted row key own new same) =
      let rows = s.rows in
      let next = s.next_id in
      rw same (record {
        distinct =
            Distinct-append (λ e. e.expense_id) next rows (row next) keyed.distinct keyed.below
              (key next);
        below = below-append (λ e. e.expense_id) next rows (row next) keyed.below (key next);
      })
  Step-IsKeyed keyed (moved q p f row located here only claim legal same) =
      let rows = s.rows in
      rw same (record {
        distinct =
            Distinct-update (λ e. e.expense_id) p f rows (λ x. (claim x).expense_id) keyed.distinct;
        below =
            below-update (λ e. e.expense_id) s.next_id p f rows (λ x. (claim x).expense_id)
              keyed.below;
      })
