-- ===== src/Wire/Result.antt =====
-- `AppResult` of the deserializers (common/src/errors.rs), with the panics of the code.
use ypf_fleet_fuel_distribut.Prelude.{Bool, if◌then◌else◌}

pub data Error : Type 0 where
  invalid_protocol invalid_data : Error

pub data Result {ℓ} (T : Type ℓ) : Type ℓ where
  panic : Result T
  err : (reason : Error) → Result T
  ok : (value : T) → Result T

infixl 5 ◌>>=◌ ◌>>◌
-- The operator `?`: a panic or an error ends the function.
abbrev pub ◌>>=◌ {ℓ κ} :
    {T : Type ℓ} {U : Type κ} (first : Result T) (next : T → Result U) → Result U
panic >>= next = panic
err reason >>= next = err reason
ok value >>= next = next value

abbrev pub ◌>>◌ {κ} : {U : Type κ} (first : Result (Unit {0})) (last : Result U) → Result U
first >> last = first >>= λ _. last

-- `if !passes { return Err(reason) }`
abbrev pub guard : (passes : Bool) (reason : Error) → Result (Unit {0})
guard passes reason = if passes then ok tt else err reason
