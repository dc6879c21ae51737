-- ===== src/Exec/Inversion.antt =====
-- Inversion of actions that return.
use ats_onework.Prelude.{Bool, true, false, Option, none, some, ◌≡◌, refl, sym, subst, arith}
use ats_onework.Exec.Frame.{Leaves}
use ats_onework.Exec.{
  Exec, Error, Result, ok, err, pure, ◌>>=◌, ◌>>◌, continue, undo, transaction, or_raise, raise_if,
}

continue-eq-ok :
    {S A B : Type 0} (f : A → Exec S B) (r : Result A × S) {b : B} {s' : S}
    → continue f r ≡ (ok b, s')
    → (a : A) × (u : S) × (r ≡ (ok a, u)) × (f a u ≡ (ok b, s'))
continue-eq-ok f (ok a, u) h = (a, u, refl, h)
continue-eq-ok f (err e, u) h = cc

-- A bind that returns: its first part returned, and the second part went on from there.
pub >>=-eq-ok :
    {S A B : Type 0} (m : Exec S A) (f : A → Exec S B) (s : S) {b : B} {s' : S}
    → (m >>= f) s ≡ (ok b, s')
    → (a : A) × (u : S) × (m s ≡ (ok a, u)) × (f a u ≡ (ok b, s'))
>>=-eq-ok m f s h = continue-eq-ok f (m s) h

-- The same, where the first part is a check.
pub or_raise-bind-eq-ok :
    {S A B : Type 0} (o : Option A) (e : Error) (f : A → Exec S B) (s : S) {b : B} {s' : S}
    → (or_raise o e >>= f) s ≡ (ok b, s')
    → (a : A) × (o ≡ some a) × (f a s ≡ (ok b, s'))
or_raise-bind-eq-ok none e f s h = cc
or_raise-bind-eq-ok (some a) e f s h = (a, refl, h)

pub raise_if-bind-eq-ok :
    {S B : Type 0} (c : Bool) (e : Error) (k : Exec S B) (s : S) {b : B} {s' : S}
    → (raise_if c e >> k) s ≡ (ok b, s')
    → (c ≡ false) × (k s ≡ (ok b, s'))
raise_if-bind-eq-ok true e k s h = cc
raise_if-bind-eq-ok false e k s h = (refl, h)

undo_cases :
    {S A : Type 0} (P : S → Type 0) (s : S) (r : Result A × S)
    → P s
    → ((a : A) (s' : S) → r ≡ (ok a, s') → P s')
    → P (undo s r).1
undo_cases P s (ok a, s') same h = h a s' refl
undo_cases P s (err e, s') same h = same

-- What holds after a transaction: it is enough to look at the runs that return.
pub transaction_cases :
    {S A : Type 0} (P : S → Type 0) (m : Exec S A) (s : S)
    → P s
    → ((a : A) (s' : S) → m s ≡ (ok a, s') → P s')
    → P (transaction m s).1
unfolding transaction
transaction_cases P m s same h = undo_cases P s (m s) same h

continue_cases :
    {S A B : Type 0} (P : S → Type 0) (f : A → Exec S B) (s : S) (r : Result A × S)
    → r.1 ≡ s
    → P s
    → ((a : A) → P (f a s).1)
    → P (continue f r).1
continue_cases P f s (ok a, u) e same h = subst (λ x. P (f a x).1) (sym e) (h a)
continue_cases P f s (err x, u) e same h = subst P (sym e) same

-- What holds after a guard and what follows it.
pub guard_cases :
    {S A B : Type 0} (P : S → Type 0) (m : Exec S A) (f : A → Exec S B) (s : S)
    → Leaves (λ (x : S). x) m
    → P s
    → ((a : A) → P (f a s).1)
    → P ((m >>= f) s).1
guard_cases P m f s leaves same h = continue_cases P f s (m s) (leaves.at s) same h

undo-eq-ok :
    {S A : Type 0} (s : S) (r : Result A × S) {a : A} {s' : S}
    → undo s r ≡ (ok a, s')
    → r ≡ (ok a, s')
undo-eq-ok s (ok a, u) h = h
undo-eq-ok s (err e, u) h = cc

-- A transaction that returns is its body.
pub transaction-eq-ok :
    {S A : Type 0} (m : Exec S A) (s : S) {a : A} {s' : S}
    → transaction m s ≡ (ok a, s')
    → m s ≡ (ok a, s')
unfolding transaction
transaction-eq-ok m s h = undo-eq-ok s (m s) h

pub pure-eq-ok : {S A : Type 0} {a b : A} {s s' : S} → pure a s ≡ (ok b, s') → (b ≡ a) × (s' ≡ s)
pure-eq-ok h = ground arith
