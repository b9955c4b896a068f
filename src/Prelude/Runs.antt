-- ===== src/Prelude/Runs.antt =====
-- A computation that ends in a value, or in behaviour that C++ leaves undefined or that kills the
-- process.
use mathlib.Core.Path.{◌≡◌}
use mathlib.Core.Option.{Option, none, some}

-- What goes wrong: a null or a wild pointer is followed, an index is out of bounds, an `assert`
-- fails, an exception leaves `main`, the code calls `exit`.
pub data Fault : Type 0 where
  null_pointer wild_pointer out_of_bounds assertion uncaught exited : Fault

-- A value of the code, or what went wrong before there was one.
pub data Run {ℓ} (Value : Type ℓ) : Type ℓ where
  fault : Fault → Run Value
  ok : Value → Run Value

-- `p->field`
abbrev pub deref {ℓ} : {A : Type ℓ} → Option A → Run A
deref none = fault null_pointer
deref (some a) = ok a

-- The run ends in a value with the property.
abbrev pub Returns {ℓ κ} : {Value : Type ℓ} → Run Value → (Value → Type κ) → Type (ℓ ⊔ κ)
Returns {Value} run Good = (value : Value) × (run ≡ ok value) × Good value

infixl 5 ◌>>=◌
abbrev pub ◌>>=◌ {κ ℓ} : {Old : Type κ} {New : Type ℓ} → Run Old → (Old → Run New) → Run New
fault why >>= next = fault why
ok value >>= next = next value
