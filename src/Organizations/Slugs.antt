-- ===== src/Organizations/Slugs.antt =====
-- common/utils.py: `slugify`.
use Prim.Native.Char.{Char, code}
use Prim.Native.String.{String, [], ◌∷◌}
use ats_onework.Prelude.{Bool, ◌&&◌, ◌||◌, ◌==◌, leb, if◌then◌else◌}
use ats_onework.Prelude.Text.{strip, is_empty}

-- `[a-z0-9]`
unfoldable pub is_slug_char : Char → Bool
is_slug_char c = leb b'a' (code c) && leb (code c) b'z' || leb b'0' (code c) && leb (code c) b'9'

-- `_SLUG_RE.sub("-", s)`: the result behind a replaced character, and behind a kept one.
unfoldable pub dashed : String → String × String
dashed [] = ([], [])
dashed (c ∷ s) =
    let (in_run, fresh) = dashed s in
    if is_slug_char c then (c ∷ fresh, c ∷ fresh) else (in_run, "-" ∷ in_run)

abbrev pub is_dash : Char → Bool
is_dash c = code c == b'-'

unfoldable pub lstrip_dash : String → String
lstrip_dash [] = []
lstrip_dash (c ∷ s) = let rest = lstrip_dash s in if is_dash c then rest else c ∷ s

unfoldable pub rstrip_dash : String → String
rstrip_dash [] = []
rstrip_dash (c ∷ s) =
    let rest = rstrip_dash s in if is_empty rest && is_dash c then [] else c ∷ rest

-- `lower` is `str.lower`.
unfoldable pub slugify : (String → String) → String → String
slugify lower value = rstrip_dash (lstrip_dash (dashed (lower (strip value))).1)
