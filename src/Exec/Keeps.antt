-- ===== src/Exec/Keeps.antt =====
-- What an action keeps: a property of the state that holds after it if it held before, whether it
-- returns or raises. One rule for each way to build an action.
use ats_onework.Prelude.{Bool, true, false, Option, none, some, ◌≡◌, refl, sym, subst}
use ats_onework.Exec.{
  Exec, Error, Result, ok, err, pure, raise, gets, or_raise, raise_if, continue, ◌>>=◌, ◌>>◌,
}
use ats_onework.Exec.Frame.{Leaves}

pub record Keeps {S A : Type 0} (P : S → Type 0) (m : Exec S A) : Type 0 where
  pub at : (s : S) → P s → P (m s).1

module _ {S : Type 0} {P : S → Type 0} where
  pub Keeps-gets : {A : Type 0} (f : S → A) → Keeps P (gets f)
  Keeps-gets f = record { at = λ s h. h }

  pub Keeps-pure : {A : Type 0} (a : A) → Keeps P (pure {S = S} a)
  Keeps-pure a = record { at = λ s h. h }

  pub Keeps-raise : {A : Type 0} (e : Error) → Keeps P (raise {S = S} {A = A} e)
  Keeps-raise e = record { at = λ s h. h }

  pub Keeps-or_raise : {A : Type 0} (o : Option A) (e : Error) → Keeps P (or_raise o e)
  Keeps-or_raise none e = Keeps-raise e
  Keeps-or_raise (some a) e = Keeps-pure a

  pub Keeps-raise_if : (c : Bool) (e : Error) → Keeps P (raise_if c e)
  Keeps-raise_if c e = record { at = λ s h. h }

  continue-keeps :
      {A B : Type 0} (f : A → Exec S B) (r : Result A × S)
      → ((a : A) → Keeps P (f a))
      → P r.1
      → P (continue f r).1
  continue-keeps f (ok a, s) hf h = (hf a).at s h
  continue-keeps f (err e, s) hf h = h

  pub Keeps-bind :
      {A B : Type 0} (m : Exec S A) (f : A → Exec S B)
      → Keeps P m
      → ((a : A) → Keeps P (f a))
      → Keeps P (m >>= f)
  Keeps-bind m f hm hf = record { at = λ s h. continue-keeps f (m s) hf (hm.at s h) }

  pub Keeps-then :
      {A B : Type 0} (m : Exec S A) (k : Exec S B) → Keeps P m → Keeps P k → Keeps P (m >> k)
  Keeps-then m k hm hk = Keeps-bind m (λ _. k) hm (λ _. hk)

-- What follows a check is reached only if the check passed.
pub Keeps-guard :
    {S A : Type 0} {P : S → Type 0} (c : Bool) (e : Error) (k : Exec S A)
    → (c ≡ false → Keeps P k)
    → Keeps P (raise_if c e >> k)
Keeps-guard true e k h = record { at = λ s p. p }
Keeps-guard false e k h = record { at = λ s p. (h refl).at s p }

-- A property of a part is kept by what leaves the part alone.
pub Keeps-part :
    {S T A : Type 0} (part : S → T) (Q : T → Type 0) (m : Exec S A)
    → Leaves part m
    → Keeps (λ s. Q (part s)) m
Keeps-part part Q m same = record { at = λ s h. subst Q (sym (same.at s)) h }

pub ruleset keeps_rules =
    (Keeps-gets, Keeps-pure, Keeps-raise, Keeps-or_raise, Keeps-raise_if, Keeps-then, Keeps-bind)
