-- ===== src/Auth/Libraries.antt =====
-- What the authentication module takes from other packages, and core/security around it.
use text.Mathlib.Text.{◌==◌ as str_eq}
use ats_onework.Prelude.{ℕ, String, Bool, false, Option, List, [], ◌∷◌, ◌&&◌, ◌||◌, leb, ltb}
use ats_onework.Prelude.Text.{size, before_at}

-- hashlib.sha256, pwdlib's `PasswordHash`, `str.lower`, and the lifetime in the settings.
pub record Libraries : Type 0 where
  pub hash_token : String → String
  pub hash_password : String → String
  pub verify_and_update_password : String → String → Bool × Option String
  pub lower : String → String
  pub refresh_token_lifetime : ℕ

-- What one call draws at random: `secrets.token_urlsafe` and `gen_random_uuid`.
pub record Draw : Type 0 where
  pub token : String
  pub family_id : ℕ

abbrev too_common : List String
too_common =
    "password" ∷ "password1" ∷ "password123" ∷ "12345678" ∷ "123456789" ∷ "1234567890" ∷ "qwerty123"
    ∷ "qwertyuiop" ∷ "letmein123" ∷ "iloveyou1" ∷ "welcome123" ∷ "admin1234" ∷ "changeme1"
    ∷ "ats123456" ∷ "atsonework" ∷ []

abbrev mem : String → List String → Bool
mem s [] = false
mem s (x ∷ xs) = str_eq s x || mem s xs

-- `validate_password_strength`: whether it gives a reason, for an `email` that is given.
unfoldable pub is_weak : Libraries → String → String → Bool
is_weak lib password email =
    let lowered = lib.lower password in
    let own = lib.lower (before_at email) in
    ltb (size password) 8
    || ltb 128 (size password)
    || mem lowered too_common
    || leb 4 (size own) && (str_eq lowered own || str_eq lowered (lib.lower email))

-- `is_expired`
abbrev pub is_expired : ℕ → ℕ → Bool
is_expired now expires_at = leb expires_at now
