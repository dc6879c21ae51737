-- ===== src/Prelude/Text.antt =====
-- Python's text operations that the services use: `strip`, slices and emptiness.
use text.Mathlib.Text.{◌==◌ as str_eq}
use text.Mathlib.TextEquality.{eq_iff}
use text.Mathlib.TextPositions.{eq_refl}
use mathlib.Core.Path.{◌≡◌}
use Prim.Native.Nat.{ℕ, zero, suc}
use Prim.Native.Char.{code}
use Prim.Native.String.{String, [], ◌∷◌}
use mathlib.Core.Bool.{Bool, true, false, ◌&&◌, ◌||◌}
use mathlib.Core.Option.{Option, none, some}
use ats_onework.Prelude.Tests.{ltb, leb, ◌==◌, if◌then◌else◌}

-- `==` of two texts
unfoldable pub text_eq : String → String → Bool
text_eq a b = str_eq a b

pub text_eq_refl : (a : String) → text_eq a a ≡ true
unfolding text_eq
text_eq_refl a = eq_refl a

pub text_eq_sound : (a b : String) → text_eq a b ≡ true → a ≡ b
unfolding text_eq
text_eq_sound a b h = (eq_iff a b).0 h

-- `<=` of two `str`: by code points
unfoldable pub text_le : String → String → Bool
text_le [] t = true
text_le (c ∷ s) [] = false
text_le (c ∷ s) (e ∷ t) =
    let rest = text_le s t in ltb (code c) (code e) || code c == code e && rest

-- `str.isspace` of one character
pub is_space : ℕ → Bool
is_space c =
    leb 9 c && leb c 13
    || leb 28 c && leb c 32
    || c == 133
    || c == 160
    || c == 5760
    || leb 8192 c && leb c 8202
    || c == 8232
    || c == 8233
    || c == 8239
    || c == 8287
    || c == 12288

abbrev pub is_empty : String → Bool
is_empty [] = true
is_empty (c ∷ s) = false

lstrip : String → String
lstrip [] = []
lstrip (c ∷ s) = let rest = lstrip s in if is_space (code c) then rest else c ∷ s

rstrip : String → String
rstrip [] = []
rstrip (c ∷ s) = let rest = rstrip s in if is_empty rest && is_space (code c) then [] else c ∷ rest

-- `str.strip()`
unfoldable pub strip : String → String
unfolding is_space lstrip rstrip
strip s = rstrip (lstrip s)

-- `s or ""`
abbrev pub or_empty : Option String → String
or_empty none = []
or_empty (some s) = s

-- `s or None`
abbrev pub or_none : String → Option String
or_none [] = none
or_none (c ∷ s) = some (c ∷ s)

-- `s[:n]`
unfoldable pub prefix : ℕ → String → String
prefix zero s = []
prefix (suc n) [] = []
prefix (suc n) (c ∷ s) = c ∷ prefix n s

-- `len`
unfoldable pub size : String → ℕ
size [] = 0
size (c ∷ s) = suc (size s)

-- `s.split("@")[0]`
unfoldable pub before_at : String → String
before_at [] = []
before_at (c ∷ s) = let rest = before_at s in if code c == 64 then [] else c ∷ rest
