-- ===== src/Text/Attempts.antt =====
-- `Result<T, String>` of the parsers of command lines; an error is a value, not its text.
use ypf_fleet_fuel_distribut.Prelude.{◌≡◌, refl, ◌⊎◌, inl, inr, Option, none, some}

pub data Attempt {ℓ κ} (E : Type ℓ) (T : Type κ) : Type (ℓ ⊔ κ) where
  err : (reason : E) → Attempt E T
  ok : (value : T) → Attempt E T

module _ {ℓ κ λ'} {E : Type ℓ} {T : Type κ} {U : Type λ'} where
  infixl 5 ◌>>=◌
  -- The operator `?`.
  abbrev pub ◌>>=◌ : (first : Attempt E T) (next : T → Attempt E U) → Attempt E U
  err reason >>= next = err reason
  ok value >>= next = next value

-- `.map_err(|_| reason)` on the result of `parse`
abbrev pub or_error {ℓ κ} : {E : Type ℓ} {T : Type κ} → Option T → E → Attempt E T
or_error none reason = err reason
or_error (some value) reason = ok value

pub Attempt-cases {ℓ κ} :
    {E : Type ℓ} {T : Type κ} (a : Attempt E T)
    → ((reason : E) × (a ≡ err reason)) ⊎ ((value : T) × (a ≡ ok value))
Attempt-cases (err reason) = inl (reason, refl)
Attempt-cases (ok value) = inr (value, refl)
