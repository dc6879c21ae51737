-- ===== src/Prelude/AnyLaws.antt =====
-- Laws of `any` under the operations on lists and rows.
use Prim.Native.Nat.{ℕ}
use mathlib.Core.Path.{◌≡◌, refl, sym, subst}
use mathlib.Core.Logic.{inl, inr}
use mathlib.Core.Bool.{Bool, true, false, not, ◌&&◌, ◌||◌}
use mathlib.Core.Option.{some}
use mathlib.Core.List.{List, [], ◌∷◌, ◌++◌, map}
use native.Mathlib.Omega.{arith}
use ats_onework.Prelude.Tests.{◌==◌, ==-refl, is_some, Bool-cases}
use ats_onework.Prelude.Lists.{any, All}
use ats_onework.Prelude.Rows.{find, select, delete}
use ats_onework.Prelude.RowLaws.{Fresh, Distinct}

module _ {ℓ} {A : Type ℓ} where
  pub any-append : (p : A → Bool) (xs ys : List A) → any p (xs ++ ys) ≡ (any p xs || any p ys)
  any-append p [] ys = refl
  any-append p (x ∷ xs) ys = ground (arith, any-append p xs ys)

  pub any-select : (p q : A → Bool) (xs : List A) → any p (select q xs) ≡ any (λ x. q x && p x) xs
  any-select p q [] = refl
  any-select p q (x ∷ xs) = ground (arith, any-select p q xs)

  pub any-delete :
      (p q : A → Bool) (xs : List A) → any p (delete q xs) ≡ any (λ x. not (q x) && p x) xs
  any-delete p q [] = refl
  any-delete p q (x ∷ xs) = ground (arith, any-delete p q xs)

  pub any-false : (p : A → Bool) (xs : List A) → All (λ x. p x ≡ false) xs → any p xs ≡ false
  any-false p [] h = refl
  any-false p (x ∷ xs) h = rw (h.0) (any-false p xs h.1)

  pub any-All : (p q : A → Bool) (xs : List A) → All (λ x. p x ≡ q x) xs → any p xs ≡ any q xs
  any-All p q [] h = refl
  any-All p q (x ∷ xs) h = rw (h.0, any-All p q xs h.1) refl

  pub All-of : (P : A → Type 0) (xs : List A) → ((x : A) → P x) → All P xs
  All-of P [] h = tt
  All-of P (x ∷ xs) h = (h x, All-of P xs h)

  pub any-eq : (p q : A → Bool) (xs : List A) → ((x : A) → p x ≡ q x) → any p xs ≡ any q xs
  any-eq p q xs h = any-All p q xs (All-of (λ x. p x ≡ q x) xs h)

  pub any-is_some : (p : A → Bool) (xs : List A) → any p xs ≡ is_some (find p xs)
  any-is_some p [] = refl
  any-is_some p (x ∷ xs) = ground (arith, any-is_some p xs)

  -- Under distinct keys, the key of a row finds that row.
  find-Fresh_key :
      (key : A → ℕ) (x : A) (xs : List A)
      → Fresh key (key x) xs
      → All (λ y. (key x == key y) ≡ false) xs
  find-Fresh_key key x [] h = tt
  find-Fresh_key key x (y ∷ xs) h = (ground (arith, h.0), find-Fresh_key key x xs h.1)

  later :
      (key : A → ℕ) (x : A) (all rest : List A)
      → All (λ y. (key x == key y) ≡ false) rest
      → All (λ y. find (λ z. key z == key y) all ≡ some y) rest
      → All (λ y. find (λ z. key z == key y) (x ∷ all) ≡ some y) rest
  later key x all [] other found = tt
  later key x all (y ∷ rest) other found =
      (rw (other.0) (found.0), later key x all rest other.1 found.1)

  pub find-own :
      (key : A → ℕ) (xs : List A)
      → Distinct key xs
      → All (λ y. find (λ z. key z == key y) xs ≡ some y) xs
  find-own key [] h = tt
  find-own key (x ∷ xs) h = (
    rw (==-refl (key x)) refl,
    later key x xs xs (find-Fresh_key key x xs h.0) (find-own key xs h.1),
  )

pub any-map :
    {A B : Type 0} (p : B → Bool) (f : A → B) (xs : List A)
    → any p (map f xs) ≡ any (λ x. p (f x)) xs
any-map p f [] = refl
any-map p f (x ∷ xs) = ground (arith, any-map p f xs)

-- A row that was found witnesses a test that it satisfies.
pub any-find :
    {A : Type 0} (p q : A → Bool) (xs : List A) {r : A}
    → find p xs ≡ some r
    → q r ≡ true
    → any q xs ≡ true
any-find p q [] h e = absurd (cc)
any-find p q (x ∷ xs) {r} h e = elim (Bool-cases (p x)) [
  | inl hit ↦ let same : x ≡ r = cc in rw (subst (λ z. q z ≡ true) (sym same) e) refl
  | inr miss ↦ let rest = any-find p q xs (rw miss at h) e in ground (arith, rest)
]
