-- ===== src/Access/Inserts.antt =====
-- INSERT ... ON CONFLICT DO NOTHING: what a test that respects the conflicts finds afterwards.
use ats_onework.Prelude.{
  Bool, true, false, List, [], ◌∷◌, ◌++◌, ◌≡◌, refl, ◌∙◌, ◌||◌, select, any, All, All-append_one,
  any-append, Bool-cases, inl, inr, arith,
}
use ats_onework.Access.Repository.{insert_new, insert_all}

module _ {A : Type 0} (conflicts : A → A → Bool) (P : A → Type 0) where
  pub insert_new-All :
      (x : A) (rows : List A) → P x → All P rows → All P (insert_new conflicts x rows)
  insert_new-All x rows hx h = elim (Bool-cases (any (conflicts x) rows)) [
    | inl e ↦ rw e h
    | inr e ↦ rw e (All-append_one P rows x h hx)
  ]

  pub insert_all-All :
      (xs rows : List A) → All P xs → All P rows → All P (insert_all conflicts xs rows)
  insert_all-All [] rows hx h = h
  insert_all-All (x ∷ xs) rows hx h =
      insert_all-All xs (insert_new conflicts x rows) hx.1 (insert_new-All x rows hx.0 h)

  module _ (q : A → Bool)
      (respects : (x y : A) → P x → P y → conflicts x y ≡ true → q x ≡ q y) where
    conflict-any :
        (x : A) (rows : List A)
        → P x
        → All P rows
        → any (conflicts x) rows ≡ true
        → any q rows ≡ (any q rows || q x)
    conflict-any x [] hx h e = absurd (cc)
    conflict-any x (y ∷ rows) hx h e = elim (Bool-cases (conflicts x y)) [
      | inl c ↦ ground (arith, respects x y hx h.0 c)
      | inr c ↦ ground (arith, conflict-any x rows hx h.1 (rw c at e))
    ]

    any-insert_new :
        (x : A) (rows : List A)
        → P x
        → All P rows
        → any q (insert_new conflicts x rows) ≡ (any q rows || q x)
    any-insert_new x rows hx h = elim (Bool-cases (any (conflicts x) rows)) [
      | inl e ↦ rw e (conflict-any x rows hx h e)
      | inr e ↦ rw e (ground (arith, any-append q rows (x ∷ [])))
    ]

    pub any-insert_all :
        (xs rows : List A)
        → All P xs
        → All P rows
        → any q (insert_all conflicts xs rows) ≡ (any q rows || any q xs)
    any-insert_all [] rows hx h = ground arith
    any-insert_all (x ∷ xs) rows hx h =
        let one = any-insert_new x rows hx.0 h in
        let rest =
          any-insert_all xs (insert_new conflicts x rows) hx.1 (insert_new-All x rows hx.0 h) in
        ground (arith, one, rest)

select-append_other :
    {A : Type 0} (q : A → Bool) (rows : List A) (x : A)
    → q x ≡ false
    → select q (rows ++ x ∷ []) ≡ select q rows
select-append_other q [] x h = rw h refl
select-append_other q (y ∷ rows) x h = rw (select-append_other q rows x h) refl

select-insert_new :
    {A : Type 0} (conflicts : A → A → Bool) (q : A → Bool) (x : A) (rows : List A)
    → q x ≡ false
    → select q (insert_new conflicts x rows) ≡ select q rows
select-insert_new conflicts q x rows h = elim (Bool-cases (any (conflicts x) rows)) [
  | inl e ↦ rw e refl
  | inr e ↦ rw e (select-append_other q rows x h)
]

-- What none of the new rows satisfies is selected as before.
pub select-insert_all :
    {A : Type 0} (conflicts : A → A → Bool) (q : A → Bool) (xs rows : List A)
    → All (λ x. q x ≡ false) xs
    → select q (insert_all conflicts xs rows) ≡ select q rows
select-insert_all conflicts q [] rows h = refl
select-insert_all conflicts q (x ∷ xs) rows h =
    select-insert_all conflicts q xs (insert_new conflicts x rows) h.1
    ∙ select-insert_new conflicts q x rows h.0
