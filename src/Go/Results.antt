-- ===== src/Go/Results.antt =====
-- A chain of results that returned a value has passed all its steps.
use finflow.Base.{◌≡◌, refl, Bool, true, false}
use mathlib.Core.Path.{subst}
use finflow.Go.Errors.{Error, Result, ok, err, fail_if, map_error, ◌>>=◌}

-- A value with a property, or an error.
abbrev pub Yields : {A : Type 0} → (A → Type 0) → Result A → Type 0
Yields P (ok a) = P a
Yields P (err e) = Unit

pub Yields-bind :
    {A B : Type 0} (P : A → Type 0) (Q : B → Type 0) (r : Result A) (f : A → Result B)
    → Yields P r
    → ((a : A) → P a → Yields Q (f a))
    → Yields Q (r >>= f)
Yields-bind P Q (ok a) f h next = next a h
Yields-bind P Q (err e) f h next = tt

pub Yields-ok : {A : Type 0} (P : A → Type 0) (r : Result A) {a : A} → Yields P r → r ≡ ok a → P a
Yields-ok P r {a} h e = subst (λ r. Yields P r) e h

-- A check that passed.
abbrev pub Passed : Bool → Unit {0} → Type 0
Passed b u = b ≡ false

pub fail_if-Yields : (b : Bool) (e : Error) → Yields (Passed b) (fail_if b e)
fail_if-Yields false e = refl
fail_if-Yields true e = tt

pub Yields-self : {A : Type 0} (r : Result A) → Yields (λ a. r ≡ ok a) r
Yields-self (ok a) = refl
Yields-self (err e) = tt

pub map_error-Yields :
    {A : Type 0} (f : Error → Error) (r : Result A) → Yields (λ a. r ≡ ok a) (map_error f r)
map_error-Yields f (ok a) = refl
map_error-Yields f (err e) = tt
