-- ===== src/Prelude/RowLaws.antt =====
-- Laws of the operations on rows: what is found in an updated or extended table, and keys that are
-- distinct.
use Prim.Native.Nat.{ℕ, suc, ◌<◌}
use mathlib.Core.Path.{◌≡◌, refl, sym, subst}
use mathlib.Core.Logic.{◌≢◌, inl, inr}
use mathlib.Core.Bool.{Bool, true}
use mathlib.Core.Option.{none, some}
use mathlib.Core.List.{List, [], ◌∷◌, ◌++◌}
use native.Mathlib.Omega.{arith}
use ats_onework.Prelude.Tests.{if◌then◌else◌, ◌==◌, Bool-cases}
use ats_onework.Prelude.Lists.{All}
use ats_onework.Prelude.Rows.{find, update}

module _ {ℓ} {A : Type ℓ} where
  -- A row that was found satisfies the condition.
  pub find_sound : (p : A → Bool) (rows : List A) {r : A} → find p rows ≡ some r → p r ≡ true
  find_sound p [] h = cc
  find_sound p (x ∷ rows) h = elim (Bool-cases (p x)) [
    | inl e ↦ ground (arith, e)
    | inr e ↦ find_sound p rows (rw e at h)
  ]

  pub find-update-some :
      (p q : A → Bool) (f : A → A) (rows : List A) {r : A}
      → ((x : A) → p (f x) ≡ p x)
      → find p rows ≡ some r
      → find p (update q f rows) ≡ some (if q r then f r else r)
  find-update-some p q f [] keeps h = cc
  find-update-some p q f (x ∷ rows) {r} keeps h =
      ground (arith, keeps x, find-update-some p q f rows {r = r} keeps)

  pub find-update-none :
      (p q : A → Bool) (f : A → A) (rows : List A)
      → ((x : A) → p (f x) ≡ p x)
      → find p rows ≡ none
      → find p (update q f rows) ≡ none
  find-update-none p q f [] keeps h = refl
  find-update-none p q f (x ∷ rows) keeps h =
      ground (arith, keeps x, find-update-none p q f rows keeps)

  pub find-append_some :
      (p : A → Bool) (rows more : List A) {r : A}
      → find p rows ≡ some r
      → find p (rows ++ more) ≡ some r
  find-append_some p [] more h = cc
  find-append_some p (x ∷ rows) more {r} h = ground (arith, find-append_some p rows more {r = r})

  pub find-append_none :
      (p : A → Bool) (rows more : List A) → find p rows ≡ none → find p (rows ++ more) ≡ find p more
  find-append_none p [] more h = refl
  find-append_none p (x ∷ rows) more h = ground (arith, find-append_none p rows more)

  -- No row of `rows` has the key `k`.
  abbrev pub Fresh : (A → ℕ) → ℕ → List A → Type 0
  Fresh key k [] = Unit
  Fresh key k (x ∷ rows) = (key x ≢ k) × Fresh key k rows

  -- The keys of the rows are distinct: the primary key of a table.
  abbrev pub Distinct : (A → ℕ) → List A → Type 0
  Distinct key [] = Unit
  Distinct key (x ∷ rows) = Fresh key (key x) rows × Distinct key rows

  pub find-Fresh :
      (key : A → ℕ) (p : A → Bool) (k : ℕ) (rows : List A) {r : A}
      → Fresh key k rows
      → find p rows ≡ some r
      → key r ≢ k
  find-Fresh key p k [] fresh h = cc
  find-Fresh key p k (x ∷ rows) fresh h = elim (Bool-cases (p x)) [
    | inl e ↦ ground (arith, fresh.0)
    | inr e ↦ find-Fresh key p k rows fresh.1 (rw e at h)
  ]

  -- A row that was found by some condition is the row that its key finds.
  pub find_by_key :
      (key : A → ℕ) (p : A → Bool) (rows : List A) {r : A}
      → Distinct key rows
      → find p rows ≡ some r
      → find (λ x. key x == key r) rows ≡ some r
  find_by_key key p [] distinct h = cc
  find_by_key key p (x ∷ rows) distinct h = elim (Bool-cases (p x)) [
    | inl e ↦ ground (arith, e)
    | inr e ↦
        let rest = rw e at h in
        let other = find-Fresh key p (key x) rows distinct.0 rest in
        let ih = find_by_key key p rows distinct.1 rest in ground (arith, other, ih)
  ]

  Fresh-update :
      (key : A → ℕ) (k : ℕ) (q : A → Bool) (f : A → A) (rows : List A)
      → ((x : A) → key (f x) ≡ key x)
      → Fresh key k rows
      → Fresh key k (update q f rows)
  Fresh-update key k q f [] keeps h = tt
  Fresh-update key k q f (x ∷ rows) keeps h =
      ground (arith, keeps x, Fresh-update key k q f rows keeps h.1)

  pub Distinct-update :
      (key : A → ℕ) (q : A → Bool) (f : A → A) (rows : List A)
      → ((x : A) → key (f x) ≡ key x)
      → Distinct key rows
      → Distinct key (update q f rows)
  Distinct-update key q f [] keeps h = tt
  Distinct-update key q f (x ∷ rows) keeps h = (
    elim (Bool-cases (q x)) [
      | inl e ↦ rw (e, keeps x) (Fresh-update key (key x) q f rows keeps h.0)
      | inr e ↦ rw e (Fresh-update key (key x) q f rows keeps h.0)
    ],
    Distinct-update key q f rows keeps h.1,
  )

  -- Two rows that were found and have one key are one row.
  pub find_unique :
      (key : A → ℕ) (p q : A → Bool) (rows : List A) {r s : A}
      → Distinct key rows
      → find p rows ≡ some r
      → find q rows ≡ some s
      → key r ≡ key s
      → r ≡ s
  find_unique key p q rows {r} {s} distinct hr hs same =
      let by_r = find_by_key key p rows distinct hr in
      let by_s = find_by_key key q rows distinct hs in
      let at_s = subst (λ k. find (λ x. key x == k) rows ≡ some r) same by_r in cc (at_s, by_s)

  -- Keys below `n`, so `n` is fresh.
  pub Fresh-of_below :
      (key : A → ℕ) (n : ℕ) (rows : List A) → All (λ x. key x < n) rows → Fresh key n rows
  Fresh-of_below key n [] h = tt
  Fresh-of_below key n (x ∷ rows) h = (omega arith, Fresh-of_below key n rows h.1)

  pub Fresh-append :
      (key : A → ℕ) (k : ℕ) (rows : List A) (r : A)
      → Fresh key k rows
      → key r ≢ k
      → Fresh key k (rows ++ r ∷ [])
  Fresh-append key k [] r h ne = (ne, tt)
  Fresh-append key k (x ∷ rows) r h ne = (h.0, Fresh-append key k rows r h.1 ne)

  pub Distinct-append :
      (key : A → ℕ) (n : ℕ) (rows : List A) (r : A)
      → Distinct key rows
      → All (λ x. key x < n) rows
      → key r ≡ n
      → Distinct key (rows ++ r ∷ [])
  Distinct-append key n [] r distinct below e = (tt, tt)
  Distinct-append key n (x ∷ rows) r distinct below e = (
    Fresh-append key (key x) rows r distinct.0 (omega arith),
    Distinct-append key n rows r distinct.1 below.1 e,
  )

  pub below-append :
      (key : A → ℕ) (n : ℕ) (rows : List A) (r : A)
      → All (λ x. key x < n) rows
      → key r ≡ n
      → All (λ x. key x < suc n) (rows ++ r ∷ [])
  below-append key n [] r below e = (omega arith, tt)
  below-append key n (x ∷ rows) r below e = (omega arith, below-append key n rows r below.1 e)

  pub below-update :
      (key : A → ℕ) (n : ℕ) (q : A → Bool) (f : A → A) (rows : List A)
      → ((x : A) → key (f x) ≡ key x)
      → All (λ x. key x < n) rows
      → All (λ x. key x < n) (update q f rows)
  below-update key n q f [] keeps below = tt
  below-update key n q f (x ∷ rows) keeps below = (
    elim (Bool-cases (q x)) [ inl e ↦ rw (e, keeps x) below.0 | inr e ↦ rw e below.0 ],
    below-update key n q f rows keeps below.1,
  )

  pub Distinct-append-Fresh :
      (key : A → ℕ) (rows : List A) (r : A)
      → Distinct key rows
      → Fresh key (key r) rows
      → Distinct key (rows ++ r ∷ [])
  Distinct-append-Fresh key [] r distinct fresh = (tt, tt)
  Distinct-append-Fresh key (x ∷ rows) r distinct fresh = (
    Fresh-append key (key x) rows r distinct.0 (λ e. fresh.0 (sym e)),
    Distinct-append-Fresh key rows r distinct.1 fresh.1,
  )
