-- ===== src/Paging/Laws.antt =====
-- What a page holds: rows of the selection, and no more than its limit.
use ats_onework.Prelude.{
  ℕ, zero, suc, ◌≤◌, Bool, true, List, [], ◌∷◌, ◌≡◌, ltb, Bool-cases, inl, inr, take, length,
  length-take-le, select, All,
}
use ats_onework.Paging.{insert_desc, order_desc, newest}

module _ {A : Type 0} where
  pub select-All : (p : A → Bool) (rows : List A) → All (λ x. p x ≡ true) (select p rows)
  select-All p [] = tt
  select-All p (x ∷ rows) = elim (Bool-cases (p x)) [
    | inl e ↦ rw e (e, select-All p rows)
    | inr e ↦ rw e (select-All p rows)
  ]

  take-All : (P : A → Type 0) (n : ℕ) (rows : List A) → All P rows → All P (take n rows)
  take-All P zero rows all = tt
  take-All P (suc n) [] all = tt
  take-All P (suc n) (x ∷ rows) all = (all.0, take-All P n rows all.1)

  module _ (key : A → ℕ) (P : A → Type 0) where
    insert_desc-All : (x : A) (rows : List A) → P x → All P rows → All P (insert_desc key x rows)
    insert_desc-All x [] p all = (p, tt)
    insert_desc-All x (y ∷ rows) p all = elim (Bool-cases (ltb (key x) (key y))) [
      | inl e ↦ rw e (all.0, insert_desc-All x rows p all.1)
      | inr e ↦ rw e (p, all)
    ]

    order_desc-All : (rows : List A) → All P rows → All P (order_desc key rows)
    order_desc-All [] all = tt
    order_desc-All (x ∷ rows) all =
        insert_desc-All x (order_desc key rows) all.0 (order_desc-All rows all.1)

    pub newest-All : (n : ℕ) (rows : List A) → All P rows → All P (newest key n rows)
    unfolding newest
    newest-All n rows all = take-All P n (order_desc key rows) (order_desc-All rows all)

  pub length-newest-le : (key : A → ℕ) (n : ℕ) (rows : List A) → length (newest key n rows) ≤ n
  unfolding newest
  length-newest-le key n rows = length-take-le n (order_desc key rows)
