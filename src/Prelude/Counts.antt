-- ===== src/Prelude/Counts.antt =====
-- The number of rows that a condition selects, under the operations on rows.
use Prim.Native.Nat.{ℕ, ◌+◌, ◌≤◌}
use mathlib.Core.Path.{◌≡◌, refl, sym, subst}
use mathlib.Core.Logic.{inl, inr}
use mathlib.Core.Bool.{Bool, true, false, ◌&&◌}
use mathlib.Core.Option.{none, some}
use mathlib.Core.List.{List, [], ◌∷◌, ◌++◌}
use native.Mathlib.Omega.{arith}
use ats_onework.Prelude.Tests.{if◌then◌else◌, is_some, Bool-cases}
use ats_onework.Prelude.Lists.{length}
use ats_onework.Prelude.Rows.{find, select, update, delete}

module _ {ℓ} {A : Type ℓ} where
  -- SELECT COUNT(*) ... WHERE p
  abbrev pub count : (A → Bool) → List A → ℕ
  count p rows = length (select p rows)

  pub count-append :
      (p : A → Bool) (rows : List A) (r : A)
      → count p (rows ++ r ∷ []) ≡ count p rows + (if p r then 1 else 0)
  count-append p [] r = ground arith
  count-append p (x ∷ rows) r = ground (arith, count-append p rows r)

  pub count-of_none : (p : A → Bool) (rows : List A) → find p rows ≡ none → count p rows ≡ 0
  count-of_none p [] h = refl
  count-of_none p (x ∷ rows) h = elim (Bool-cases (p x)) [
    | inl e ↦ absurd (ground (arith, e))
    | inr e ↦ rw e (count-of_none p rows (rw e at h))
  ]

  -- An UPDATE that lets no other row satisfy the condition.
  pub count-update-le :
      (p q : A → Bool) (f : A → A) (rows : List A)
      → ((x : A) → q x ≡ true → p (f x) ≡ true → p x ≡ true)
      → count p (update q f rows) ≤ count p rows
  count-update-le p q f [] keeps = omega arith
  count-update-le p q f (x ∷ rows) keeps = ground (arith, keeps x, count-update-le p q f rows keeps)

  -- A row that is inserted only where none satisfies the condition keeps it satisfied at most once.
  pub count-append-le :
      (p : A → Bool) (rows : List A) (r : A)
      → (p r ≡ true → find p rows ≡ none)
      → count p rows ≤ 1
      → count p (rows ++ r ∷ []) ≤ 1
  count-append-le p rows r free h = elim (Bool-cases (p r)) [
    | inl e ↦ ground (arith, count-append p rows r, count-of_none p rows (free e), e)
    | inr e ↦ ground (arith, count-append p rows r, e)
  ]

  pub is_some-find-append :
      (p : A → Bool) (rows more : List A)
      → is_some (find p rows) ≡ true
      → is_some (find p (rows ++ more)) ≡ true
  is_some-find-append p [] more h = absurd (cc)
  is_some-find-append p (x ∷ rows) more h = elim (Bool-cases (p x)) [
    | inl e ↦ rw e refl
    | inr e ↦ rw e (is_some-find-append p rows more (rw e at h))
  ]

  -- A DELETE takes away the rows that satisfy both conditions.
  pub count-delete :
      (p q : A → Bool) (rows : List A)
      → count p (delete q rows) + count (λ x. q x && p x) rows ≡ count p rows
  count-delete p q [] = refl
  count-delete p q (x ∷ rows) = ground (arith, count-delete p q rows)

  pub count-both-le : (p q : A → Bool) (rows : List A) → count (λ x. q x && p x) rows ≤ count q rows
  count-both-le p q [] = omega arith
  count-both-le p q (x ∷ rows) = ground (arith, count-both-le p q rows)

  -- A row that was found and fails the second condition is not among those with both.
  pub count-both-lt :
      (p q : A → Bool) (rows : List A) {r : A}
      → find q rows ≡ some r
      → p r ≡ false
      → count (λ x. q x && p x) rows + 1 ≤ count q rows
  count-both-lt p q [] h e = absurd (cc)
  count-both-lt p q (x ∷ rows) {r} h e = elim (Bool-cases (q x)) [
    | inl hit ↦
        let same : x ≡ r = cc in
        let miss : p x ≡ false = subst (λ y. p y ≡ false) (sym same) e in
        let rest = count-both-le p q rows in rw (hit, miss) (omega arith)
    | inr hit ↦ let rest = count-both-lt p q rows (rw hit at h) e in rw hit rest
  ]

  pub find_same :
      (p q : A → Bool) (rows : List A) → ((x : A) → p x ≡ q x) → find p rows ≡ find q rows
  find_same p q [] h = refl
  find_same p q (x ∷ rows) h = rw (h x, find_same p q rows h) refl
