-- ===== src/Budgets/Rewrites.antt =====
-- What the UPDATE of a budget leaves behind.
use ats_onework.Prelude.{
  ℕ, true, false, Option, none, some, List, [], ◌∷◌, ◌≡◌, refl, ap, ◌∙◌, ◌==◌, ◌&&◌, ◌||◌, any,
  is_some, find, find_sound, find-update-some, update, Bool-cases, inl, inr, arith,
}
use ats_onework.Exec.{ok}
use ats_onework.Exec.Inversion.{pure-eq-ok}
use ats_onework.Schema.{Db, Budget}
use ats_onework.Budgets.Repository.{
  BudgetRow, with_spent, is_budget, or_current, changed, breaks_checks, update_budget_row,
}

-- A column after a change: the value that was given, or else what it was.
abbrev pub Takes : Option ℕ → ℕ → ℕ → Type 0
Takes none old new = new ≡ old
Takes (some value) old new = new ≡ value

-- The budget of that key as a reading finds it.
abbrev pub stored : ℕ → ℕ → Db → Option Budget
stored id org d = find (λ b. b.budget_id == id && b.organization_id == org) d.budgets.rows

-- The budgets before and after one of them was changed to `new`.
pub record Rewritten (org id : ℕ) (amount start end : Option ℕ) (old new : Budget) (d d' : Db)
    : Type 0 where
  pub new_amount : Takes amount old.amount new.amount
  pub new_start : Takes start old.start_date new.start_date
  pub new_end : Takes end old.end_date new.end_date
  pub budget_id : new.budget_id ≡ old.budget_id
  pub employee_id : new.employee_id ≡ old.employee_id
  pub organization_id : new.organization_id ≡ old.organization_id
  pub is_stored : stored id org d' ≡ some new
  pub others : (i o : ℕ) → (i == id && o == org) ≡ false → stored i o d' ≡ stored i o d

or_current-Takes : (o : Option ℕ) (old : ℕ) → Takes o old (or_current o old)
or_current-Takes none old = refl
or_current-Takes (some value) old = refl

pub kept-Takes : (o : Option ℕ) (old : ℕ) → is_some o ≡ false → Takes o old old
kept-Takes none old h = refl
kept-Takes (some value) old h = absurd (cc)

find-changed_other :
    (id org i o : ℕ) (amount start end : Option ℕ) (rows : List Budget)
    → (i == id && o == org) ≡ false
    → find (is_budget i o) (update (is_budget id org) (changed amount start end) rows)
      ≡ find (is_budget i o) rows
find-changed_other id org i o amount start end [] other = refl
find-changed_other id org i o amount start end (b ∷ rows) other =
    ground (arith, find-changed_other id org i o amount start end rows other)

module _ (id org : ℕ) (amount start end : Option ℕ) (d : Db) (old : Budget)
    (located : find (is_budget id org) d.budgets.rows ≡ some old) where
  pub changed-Rewritten :
      (d' : Db)
      → d'.budgets.rows ≡ update (is_budget id org) (changed amount start end) d.budgets.rows
      → Rewritten org id amount start end old (changed amount start end old) d d'
  changed-Rewritten d' rows =
      let key = find_sound (is_budget id org) d.budgets.rows located in
      let kept =
        find-update-some (is_budget id org) (is_budget id org) (changed amount start end)
          d.budgets.rows (λ b. refl) located in
      record {
        new_amount = or_current-Takes amount old.amount;
        new_start = or_current-Takes start old.start_date;
        new_end = or_current-Takes end old.end_date;
        budget_id = refl;
        employee_id = refl;
        organization_id = refl;
        is_stored = rw rows (rw (kept, key) refl);
        others = λ i o other.
            rw rows (find-changed_other id org i o amount start end d.budgets.rows other);
      }

  pub kept-Rewritten :
      (is_some amount || is_some start || is_some end) ≡ false
      → Rewritten org id amount start end old old d d
  kept-Rewritten unset = record {
    new_amount = kept-Takes amount old.amount (ground (arith, unset));
    new_start = kept-Takes start old.start_date (ground (arith, unset));
    new_end = kept-Takes end old.end_date (ground (arith, unset));
    budget_id = refl;
    employee_id = refl;
    organization_id = refl;
    is_stored = located;
    others = λ i o other. refl;
  }

  pub update-row :
      {found : Option BudgetRow} {d1 : Db}
      → (is_some amount || is_some start || is_some end) ≡ true
      → update_budget_row id org amount start end d ≡ (ok found, d1)
      → (found ≡ some (with_spent d (changed amount start end old)))
        × (d1.budgets.rows ≡ update (is_budget id org) (changed amount start end) d.budgets.rows)
  unfolding update_budget_row
  update-row set h =
      let key = find_sound (is_budget id org) d.budgets.rows located in
      let kept =
        find-update-some (is_budget id org) (is_budget id org) (changed amount start end)
          d.budgets.rows (λ b. refl) located in
      elim (Bool-cases (any (breaks_checks id org amount start end) d.budgets.rows)) [
        | inl bad ↦ absurd (cc (rw (set, bad) at h))
        | inr fine ↦
            let (is_found, is_d1) = pure-eq-ok (rw (set, fine) at h) in
            (is_found ∙ rw (kept, key) refl, ap (λ x. x.budgets.rows) is_d1)
      ]
