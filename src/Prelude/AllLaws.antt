-- ===== src/Prelude/AllLaws.antt =====
-- Laws of `All` under the operations on rows.
use Prim.Native.Nat.{ℕ}
use mathlib.Core.Path.{◌≡◌, sym, subst}
use mathlib.Core.Logic.{inl, inr}
use mathlib.Core.Bool.{Bool, true}
use mathlib.Core.Option.{none, some}
use mathlib.Core.List.{List, [], ◌∷◌, ◌++◌}
use native.Mathlib.Omega.{arith}
use ats_onework.Prelude.Tests.{◌==◌, Bool-cases}
use ats_onework.Prelude.Lists.{All}
use ats_onework.Prelude.Rows.{find, update, delete}
use ats_onework.Prelude.RowLaws.{Fresh, Distinct, find-Fresh}

module _ {ℓ} {A : Type ℓ} (P Q : A → Type 0) where
  pub All-map : (rows : List A) → ((x : A) → P x → Q x) → All P rows → All Q rows
  All-map [] h all = tt
  All-map (x ∷ rows) h all = (h x all.0, All-map rows h all.1)

  pub All-both : (rows : List A) → All P rows → All Q rows → All (λ x. P x × Q x) rows
  All-both [] p q = tt
  All-both (x ∷ rows) p q = ((p.0, q.0), All-both rows p.1 q.1)

  pub All-update :
      (p : A → Bool) (f : A → A) (rows : List A)
      → ((x : A) → P x → p x ≡ true → Q (f x))
      → ((x : A) → P x → Q x)
      → All P rows
      → All Q (update p f rows)
  All-update p f [] hit miss all = tt
  All-update p f (x ∷ rows) hit miss all = (
    elim (Bool-cases (p x)) [ inl e ↦ rw e (hit x all.0 e) | inr e ↦ rw e (miss x all.0) ],
    All-update p f rows hit miss all.1,
  )

module _ {ℓ} {A : Type ℓ} where
  pub All-append_one :
      (P : A → Type 0) (rows : List A) (r : A) → All P rows → P r → All P (rows ++ r ∷ [])
  All-append_one P [] r all h = (h, tt)
  All-append_one P (x ∷ rows) r all h = (all.0, All-append_one P rows r all.1 h)

  -- A property of every row is one of a row that was found.
  pub All-find :
      (P : A → Type 0) (p : A → Bool) (rows : List A) {r : A}
      → All P rows
      → find p rows ≡ some r
      → P r
  All-find P p [] all h = cc
  All-find P p (x ∷ rows) all h = elim (Bool-cases (p x)) [
    | inl e ↦ subst P (cc) all.0
    | inr e ↦ All-find P p rows all.1 (rw e at h)
  ]

  Fresh-All :
      (key : A → ℕ) (k : ℕ) (r : A) (rows : List A)
      → Fresh key k rows
      → All (λ x. key x ≡ k → x ≡ r) rows
  Fresh-All key k r [] h = tt
  Fresh-All key k r (x ∷ rows) h = (λ e. absurd (h.0 e), Fresh-All key k r rows h.1)

  -- The only row with the key of a found row is that row.
  pub All-unique :
      (key : A → ℕ) (p : A → Bool) (rows : List A) {r : A}
      → Distinct key rows
      → find p rows ≡ some r
      → All (λ x. key x ≡ key r → x ≡ r) rows
  All-unique key p [] distinct h = tt
  All-unique key p (x ∷ rows) {r} distinct h = elim (Bool-cases (p x)) [
    | inl e ↦
        let same : x ≡ r = cc in (λ _. same, Fresh-All key (key r) r rows (rw (← same) distinct.0))
    | inr e ↦
        let rest = rw e at h in
        let all = All-unique key p rows distinct.1 rest in
        (λ same. absurd (find-Fresh key p (key x) rows distinct.0 rest (sym same)), all)
  ]

  pub Fresh-of_none :
      (key : A → ℕ) (k : ℕ) (rows : List A) → find (λ x. key x == k) rows ≡ none → Fresh key k rows
  Fresh-of_none key k [] h = tt
  Fresh-of_none key k (x ∷ rows) h = elim (Bool-cases (key x == k)) [
    | inl e ↦ absurd (ground (arith, e))
    | inr e ↦ (ground (arith, e), Fresh-of_none key k rows (rw e at h))
  ]

  pub All-delete :
      (P : A → Type 0) (p : A → Bool) (rows : List A) → All P rows → All P (delete p rows)
  All-delete P p [] all = tt
  All-delete P p (x ∷ rows) all = elim (Bool-cases (p x)) [
    | inl e ↦ rw e (All-delete P p rows all.1)
    | inr e ↦ rw e (all.0, All-delete P p rows all.1)
  ]
