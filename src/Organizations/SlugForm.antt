-- ===== src/Organizations/SlugForm.antt =====
-- The form of a generated slug: `_SLUG_PATTERN` of organizations/schemas.py.
use Prim.Native.Char.{Char}
use Prim.Native.String.{String, [], ◌∷◌}
use ats_onework.Prelude.{
  Bool, true, false, ◌≡◌, refl, ◌&&◌, not, if◌then◌else◌, ◌⊎◌, inl, inr, Bool-cases, arith,
}
use ats_onework.Prelude.Text.{strip, is_empty}
use ats_onework.Organizations.Slugs.{
  is_slug_char, is_dash, dashed, lstrip_dash, rstrip_dash, slugify,
}

-- `^[a-z0-9]+(?:-[a-z0-9]+)*$`; `must` says that a letter or digit has to come next.
unfoldable pub matches : Bool → String → Bool
matches must [] = not must
matches must (c ∷ s) =
    let after_char = matches false s in
    let after_dash = matches true s in
    if is_slug_char c then after_char else is_dash c && not must && after_dash

-- The same, where the text may also end in a dash.
runs : Bool → String → Bool
runs must [] = true
runs must (c ∷ s) =
    let after_char = runs false s in
    let after_dash = runs true s in
    if is_slug_char c then after_char else is_dash c && not must && after_dash

dash-not_slug : is_slug_char "-" ≡ false
unfolding is_slug_char
dash-not_slug = refl

slug-not_dash : (c : Char) → is_slug_char c ≡ true → is_dash c ≡ false
unfolding is_slug_char
slug-not_dash c h = ground arith

not_slug-of_dash : (c : Char) → is_dash c ≡ true → is_slug_char c ≡ false
not_slug-of_dash c h = elim (Bool-cases (is_slug_char c)) [
  | inr e ↦ e
  | inl e ↦ absurd (cc (slug-not_dash c e))
]

dashed-runs : (s : String) → (runs true (dashed s).0 ≡ true) × (runs false (dashed s).1 ≡ true)
unfolding dashed runs
dashed-runs [] = (refl, refl)
dashed-runs (c ∷ s) =
    let ih = dashed-runs s in
    elim (Bool-cases (is_slug_char c)) [
      | inl e ↦ rw e (rw e ih.1, rw e ih.1)
      | inr e ↦ rw e (ih.0, rw dash-not_slug ih.0)
    ]

runs-free : (s : String) → runs true s ≡ true → runs false s ≡ true
unfolding runs
runs-free [] h = refl
runs-free (c ∷ s) h = ground arith

runs-dash :
    (c : Char) (s : String) → is_dash c ≡ true → runs false (c ∷ s) ≡ true → runs true s ≡ true
unfolding runs
runs-dash c s dash h = ground (arith, not_slug-of_dash c dash)

runs-other :
    (c : Char) (s : String)
    → is_dash c ≡ false
    → runs false (c ∷ s) ≡ true
    → runs true (c ∷ s) ≡ true
unfolding runs
runs-other c s other h = ground arith

lstrip-runs : (s : String) → runs false s ≡ true → runs true (lstrip_dash s) ≡ true
unfolding lstrip_dash runs
lstrip-runs [] h = h
lstrip-runs (c ∷ s) h = elim (Bool-cases (is_dash c)) [
  | inl e ↦ rw e (lstrip-runs s (runs-free s (runs-dash c s e h)))
  | inr e ↦ rw e (runs-other c s e h)
]

-- What is left of a text whose first character is kept.
ends :
    (must : Bool) (c : Char) (rest : String)
    → is_slug_char c ≡ true
    → (rest ≡ []) ⊎ (matches false rest ≡ true)
    → matches must (c ∷ rest) ≡ true
unfolding matches
ends must c rest slug (inl e) = rw (slug, e) refl
ends must c rest slug (inr e) = rw (slug, e) refl

dashes :
    (must : Bool) (c : Char) (rest : String)
    → is_slug_char c ≡ false
    → is_dash c ≡ true
    → not must ≡ true
    → matches true rest ≡ true
    → matches must (c ∷ rest) ≡ true
unfolding matches
dashes must c rest miss dash free e = rw (miss, dash, free, e) refl

not_empty : (rest : String) → matches true rest ≡ true → is_empty rest ≡ false
unfolding matches
not_empty [] h = absurd (cc)
not_empty (c ∷ s) h = refl

rstrip-matches :
    (must : Bool) (s : String)
    → runs must s ≡ true
    → (rstrip_dash s ≡ []) ⊎ (matches must (rstrip_dash s) ≡ true)
unfolding runs rstrip_dash
rstrip-matches must [] h = inl refl
rstrip-matches must (c ∷ s) h = elim (Bool-cases (is_slug_char c)) [
  | inl slug ↦
      let ih = rstrip-matches false s (rw slug at h) in
      let other : (is_empty (rstrip_dash s) && is_dash c) ≡ false =
        ground (arith, slug-not_dash c slug) in
      inr (rw other (ends must c (rstrip_dash s) slug ih))
  | inr miss ↦
      let facts = rw miss at h in
      let tail : runs true s ≡ true = ground (arith, facts) in
      let dash : is_dash c ≡ true = ground (arith, facts) in
      let free : not must ≡ true = ground (arith, facts) in
      elim (rstrip-matches true s tail) [
        | inl e ↦ inl (rw (e, dash) refl)
        | inr e ↦
            inr (rw (not_empty (rstrip_dash s) e) (dashes must c (rstrip_dash s) miss dash free e))
      ]
]

-- A slug that `slugify` makes is empty, or it has the form that the schemas ask for.
pub slugify-matches :
    (lower : String → String) (value : String)
    → (slugify lower value ≡ []) ⊎ (matches true (slugify lower value) ≡ true)
unfolding slugify
slugify-matches lower value =
    rstrip-matches true _ (lstrip-runs _ (dashed-runs (lower (strip value))).1)
