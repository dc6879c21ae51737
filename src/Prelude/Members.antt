-- ===== src/Prelude/Members.antt =====
-- What a query returns is a row of its table.
use mathlib.Core.Path.{◌≡◌, refl}
use mathlib.Core.Logic.{inl, inr}
use mathlib.Core.Bool.{Bool, true}
use mathlib.Core.Option.{some}
use mathlib.Core.List.{List, [], ◌∷◌, Memᴰ}
use mathlib.Core.List.Memᴰ.{head, tail}
use ats_onework.Prelude.Tests.{Bool-cases}
use ats_onework.Prelude.Rows.{find}
use ats_onework.Prelude.Lists.{any}

module _ {A : Type 0} where
  pub find-Mem : (p : A → Bool) (rows : List A) {r : A} → find p rows ≡ some r → Memᴰ r rows
  find-Mem p [] h = absurd (cc)
  find-Mem p (x ∷ rows) h = elim (Bool-cases (p x)) [
    | inl e ↦ head (cc (rw e at h))
    | inr e ↦ tail (find-Mem p rows (rw e at h))
  ]

  -- A row that satisfies the condition.
  pub any-Mem :
      (p : A → Bool) (rows : List A) → any p rows ≡ true → (x : A) × (Memᴰ x rows × (p x ≡ true))
  any-Mem p [] h = absurd (cc)
  any-Mem p (x ∷ rows) h = elim (Bool-cases (p x)) [
    | inl e ↦ (x, (head refl, e))
    | inr e ↦ let (y, (inside, hit)) = any-Mem p rows (rw e at h) in (y, (tail inside, hit))
  ]
