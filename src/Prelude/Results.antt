-- ===== src/Prelude/Results.antt =====
-- What a handler returns: a value, a contract error, or a panic (an overflow, a failed `unwrap`).
use mathlib.Core.Path.{◌≡◌, refl}
use mathlib.Core.Bool.{Bool, true, false}
use mathlib.Core.Option.{Option, none, some}

pub data Result (E A : Type 0) : Type 0 where
  ok : A → Result E A
  err : E → Result E A
  panic : Result E A

module _ {E A : Type 0} where
  -- `ok_or(e)?`
  abbrev pub or_err : Option A → E → Result E A
  or_err none e = err e
  or_err (some a) e = ok a

  -- `unwrap()`, and the arithmetic that aborts on an overflow
  abbrev pub or_panic : Option A → Result E A
  or_panic none = panic
  or_panic (some a) = ok a

infixl 5 ◌>>=◌ ◌>>◌
abbrev pub ◌>>=◌ : {E A B : Type 0} → Result E A → (A → Result E B) → Result E B
ok a >>= f = f a
err e >>= f = err e
panic >>= f = panic

abbrev pub ◌>>◌ : {E B : Type 0} → Result E Unit → Result E B → Result E B
m >> k = m >>= λ _. k

-- `if !test { return Err(e) }`
abbrev pub guard : {E : Type 0} → Bool → E → Result E Unit
guard true e = ok tt
guard false e = err e

-- A successful chain, taken apart.
pub >>=-eq-ok :
    {E A B : Type 0} (m : Result E A) (k : A → Result E B) {out : B}
    → (m >>= k) ≡ ok out
    → (value : A) × (m ≡ ok value) × (k value ≡ ok out)
>>=-eq-ok panic k run = cc
>>=-eq-ok (err e) k run = cc
>>=-eq-ok (ok value) k run = (value, refl, run)

-- What the value satisfies, if there is one.
abbrev pub Ensures : {E A : Type 0} → (A → Type 0) → Result E A → Type 0
Ensures P (ok a) = P a
Ensures P (err e) = Unit
Ensures P panic = Unit

pub Ensures-bind :
    {E A B : Type 0} (P : A → Type 0) (Q : B → Type 0) (m : Result E A) (f : A → Result E B)
    → Ensures P m
    → ((a : A) → m ≡ ok a → P a → Ensures Q (f a))
    → Ensures Q (m >>= f)
Ensures-bind P Q (ok a) f h k = k a refl h
Ensures-bind P Q (err e) f h k = tt
Ensures-bind P Q panic f h k = tt

pub Ensures-of_eq :
    {E A : Type 0} (P : A → Type 0) (m : Result E A) → ((a : A) → m ≡ ok a → P a) → Ensures P m
Ensures-of_eq P (ok a) h = h a refl
Ensures-of_eq P (err e) h = tt
Ensures-of_eq P panic h = tt

pub or_panic-eq-ok : {E A : Type 0} (o : Option A) {a : A} → or_panic {E = E} o ≡ ok a → o ≡ some a
or_panic-eq-ok none h = cc
or_panic-eq-ok (some b) h = cc

pub or_err-eq-ok : {E A : Type 0} (o : Option A) (e : E) {a : A} → or_err o e ≡ ok a → o ≡ some a
or_err-eq-ok none e h = cc
or_err-eq-ok (some b) e h = cc

pub ok-injective : {E A : Type 0} {a b : A} → ◌≡◌ {A = Result E A} (ok a) (ok b) → a ≡ b
ok-injective h = cc

-- A guard that was passed.
pub guard_step :
    {E B : Type 0} (test : Bool) (e : E) (k : Result E B) {out : B}
    → (guard test e >> k) ≡ ok out
    → (test ≡ true) × (k ≡ ok out)
guard_step true e k run = (refl, run)
guard_step false e k run = cc
