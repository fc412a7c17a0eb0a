-- ===== src/Base/Outcome.antt =====
-- How a call ends. A returned Go error is part of the value; a run-time panic is an outcome.
use mathlib.Core.Option.{Option, none, some}

-- `out_of_fuel` is no outcome of the program: a loop of the model had too few rounds.
pub data Run {ℓ} (A : Type ℓ) : Type ℓ where
  ok : A → Run A
  panic out_of_fuel : Run A

infixl 5 ◌>>=◌
abbrev pub ◌>>=◌ {ℓ κ} : {A : Type ℓ} {B : Type κ} → Run A → (A → Run B) → Run B
ok a >>= f = f a
panic >>= f = panic
out_of_fuel >>= f = out_of_fuel

-- An index or a slice bound out of range panics.
abbrev pub or_panic {ℓ} : {A : Type ℓ} → Option A → Run A
or_panic (some a) = ok a
or_panic none = panic

-- What holds of the value that a call returns, if it returns.
abbrev pub Ends {ℓ} : {A : Type ℓ} → (A → Type 0) → Run A → Type 0
Ends P (ok a) = P a
Ends P panic = Unit {0}
Ends P out_of_fuel = Unit {0}

pub Ends-bind {ℓ κ} :
    {A : Type ℓ} {B : Type κ} (P : A → Type 0) (Q : B → Type 0) (o : Run A) (f : A → Run B)
    → Ends P o
    → ((a : A) → P a → Ends Q (f a))
    → Ends Q (o >>= f)
Ends-bind P Q (ok a) f h g = g a h
Ends-bind P Q panic f h g = tt
Ends-bind P Q out_of_fuel f h g = tt

pub Ends-any {ℓ} : {A : Type ℓ} (o : Run A) → Ends (λ (a : A). Unit {0}) o
Ends-any (ok a) = tt
Ends-any panic = tt
Ends-any out_of_fuel = tt
