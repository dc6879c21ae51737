-- ===== src/Exec/Frame.antt =====
-- What an action leaves alone: a part of the state that is the same after it, whether it returns or
-- raises. One rule for each way to build an action.
use ats_onework.Prelude.{Bool, true, false, Option, none, some, ◌≡◌, refl, ◌∙◌, if◌then◌else◌}
use ats_onework.Exec.{
  Exec, Error, Result, ok, err, pure, raise, gets, or_raise, raise_if, transaction, undo, continue,
  ◌>>=◌, ◌>>◌,
}

pub record Leaves {S T A : Type 0} (part : S → T) (m : Exec S A) : Type 0 where
  pub at : (s : S) → part (m s).1 ≡ part s

undo-part :
    {S T A : Type 0} (part : S → T) (s : S) (r : Result A × S)
    → part r.1 ≡ part s
    → part (undo s r).1 ≡ part s
undo-part part s (ok a, s') h = h
undo-part part s (err e, s') h = refl

module _ {S T : Type 0} {part : S → T} where
  pub Leaves-gets : {A : Type 0} (f : S → A) → Leaves part (gets f)
  Leaves-gets f = record { at = λ s. refl }

  pub Leaves-pure : {A : Type 0} (a : A) → Leaves part (pure {S = S} a)
  Leaves-pure a = record { at = λ s. refl }

  pub Leaves-raise : {A : Type 0} (e : Error) → Leaves part (raise {S = S} {A = A} e)
  Leaves-raise e = record { at = λ s. refl }

  pub Leaves-or_raise : {A : Type 0} (o : Option A) (e : Error) → Leaves part (or_raise o e)
  Leaves-or_raise none e = Leaves-raise e
  Leaves-or_raise (some a) e = Leaves-pure a

  pub Leaves-raise_if : (c : Bool) (e : Error) → Leaves part (raise_if c e)
  Leaves-raise_if c e = record { at = λ s. refl }

  pub Leaves-if :
      {A : Type 0} (c : Bool) (m n : Exec S A)
      → Leaves part m
      → Leaves part n
      → Leaves part (if c then m else n)
  Leaves-if true m n hm hn = hm
  Leaves-if false m n hm hn = hn

  pub continue-part :
      {A B : Type 0} (f : A → Exec S B) (r : Result A × S)
      → ((a : A) → Leaves part (f a))
      → part (continue f r).1 ≡ part r.1
  continue-part f (ok a, s) h = (h a).at s
  continue-part f (err e, s) h = refl

  pub Leaves-bind :
      {A B : Type 0} (m : Exec S A) (f : A → Exec S B)
      → Leaves part m
      → ((a : A) → Leaves part (f a))
      → Leaves part (m >>= f)
  Leaves-bind m f hm hf = record { at = λ s. continue-part f (m s) hf ∙ hm.at s }

  pub Leaves-then :
      {A B : Type 0} (m : Exec S A) (k : Exec S B)
      → Leaves part m
      → Leaves part k
      → Leaves part (m >> k)
  Leaves-then m k hm hk = Leaves-bind m (λ _. k) hm (λ _. hk)

  pub Leaves-transaction : {A : Type 0} (m : Exec S A) → Leaves part m → Leaves part (transaction m)
  unfolding transaction
  Leaves-transaction m h = record { at = λ s. undo-part part s (m s) (h.at s) }

pub ruleset leaves_rules = (
  Leaves-gets, Leaves-pure, Leaves-raise, Leaves-or_raise, Leaves-raise_if, Leaves-if, Leaves-then,
  Leaves-bind, Leaves-transaction,
)
