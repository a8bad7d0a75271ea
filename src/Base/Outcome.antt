-- ===== src/Base/Outcome.antt =====
-- What a C call comes to, and the two exit codes.

-- `fault` is an access outside an object (a null pointer, an index past an array), `halted` a
-- call of `exit(1)`, `out_of_fuel` a loop or recursion that used up the rounds it was given.
pub data Run {ℓ} (A : Type ℓ) : Type ℓ where
  ok : A → Run A
  fault : Run A
  halted : Run A
  out_of_fuel : Run A

infixl 5 ◌>>=◌ ◌>>◌
abbrev pub ◌>>=◌ {ℓ κ} : {A : Type ℓ} {B : Type κ} → Run A → (A → Run B) → Run B
ok a >>= f = f a
fault >>= f = fault
halted >>= f = halted
out_of_fuel >>= f = out_of_fuel

abbrev pub ◌>>◌ {ℓ} : {B : Type ℓ} → Run (Unit {0}) → Run B → Run B
m >> k = m >>= λ _. k

-- `EXIT_SUCCESS` and `EXIT_FAILURE`.
pub data Exit : Type 0 where
  exit_success exit_failure : Exit

pub data Empty {ℓ} : Type ℓ where

-- Total correctness: the call returns, and its result satisfies `P`.
abbrev pub Returns {ℓ κ} : {A : Type ℓ} → (A → Type κ) → Run A → Type κ
Returns P (ok a) = P a
Returns P fault = Empty
Returns P halted = Empty
Returns P out_of_fuel = Empty

pub Returns-bind {ℓ κ μ ν} :
    {A : Type ℓ} {B : Type κ} (P : A → Type μ) (Q : B → Type ν) (m : Run A) (f : A → Run B)
    → Returns P m
    → ((a : A) → P a → Returns Q (f a))
    → Returns Q (m >>= f)
Returns-bind P Q (ok a) f p next = next a p
Returns-bind P Q fault f p next = elim p [ ]
Returns-bind P Q halted f p next = elim p [ ]
Returns-bind P Q out_of_fuel f p next = elim p [ ]
