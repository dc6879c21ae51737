-- ===== src/Exec.antt =====
-- Service methods: actions that mutate the database and may raise (core/exceptions.py,
-- db/transaction.py, db/connection.py).
pub mod Frame
pub mod Inversion
pub mod Keeps
use ats_onework.Prelude.{ℕ, Bool, Option, none, some, if◌then◌else◌}

-- The exception classes by which a request can end; `assertion` is a failed `assert`, `value_error`
-- Python's own.
pub data Error : Type 0 where
  authentication authorization not_found conflict validation assertion value_error : Error
  rate_limited : ℕ → Error

pub data Result {ℓ} (A : Type ℓ) : Type ℓ where
  ok : A → Result A
  err : Error → Result A

-- What was written before a raise is still there when the exception travels: only the end of a
-- transaction takes it back. So the state comes back beside the error too.
abbrev pub Exec {ℓ} : Type ℓ → Type ℓ → Type ℓ
Exec S A = S → Result A × S

module _ {ℓ} {S A : Type ℓ} where
  abbrev pub pure : A → Exec S A
  pure a s = (ok a, s)

  abbrev pub raise : Error → Exec S A
  raise e s = (err e, s)

  abbrev pub gets : (S → A) → Exec S A
  gets f s = (ok (f s), s)

  -- `if x is None: raise e`
  abbrev pub or_raise : Option A → Error → Exec S A
  or_raise none e = raise e
  or_raise (some a) e = pure a

  -- `async with transaction(conn)`: an exception that leaves the block takes its writes back.
  abbrev pub undo : S → Result A × S → Result A × S
  undo s (ok a, s') = (ok a, s')
  undo s (err e, s') = (err e, s)

  unfoldable pub transaction : Exec S A → Exec S A
  transaction m s = undo s (m s)

module _ {ℓ} {S A B : Type ℓ} where
  abbrev pub continue : (A → Exec S B) → Result A × S → Result B × S
  continue f (ok a, s) = f a s
  continue f (err e, s) = (err e, s)

  infixl 5 ◌>>=◌ ◌>>◌
  abbrev pub ◌>>=◌ : Exec S A → (A → Exec S B) → Exec S B
  ◌>>=◌ m f s = continue f (m s)

  abbrev pub ◌>>◌ : Exec S A → Exec S B → Exec S B
  m >> k = m >>= λ _. k

abbrev pub raise_if : {S : Type 0} → Bool → Error → Exec S (Unit {0})
raise_if c e s = (if c then err e else ok tt, s)

abbrev pub modify : {S : Type 0} → (S → S) → Exec S (Unit {0})
modify f s = (ok tt, f s)
