-- ===== src/Float/Order.antt =====
-- Laws of the comparisons of `f32`.
use ypf_fleet_fuel_distribut.Prelude.{Option, none, some, ◌≡◌, true, false, arith}
use ypf_fleet_fuel_distribut.Float.{F32, IsF32, fgt, fge, feq, minus_one}

-- A value that is at least another is not exceeded by it.
pub fge→not_fgt : (x y : F32) → fge x y ≡ true → fgt y x ≡ false
unfolding fge fgt
fge→not_fgt x y h = ground arith

-- Only the pattern of -1.0 equals -1.0.
pub feq-minus_one : (x : F32) → IsF32 x → feq x minus_one ≡ true → x ≡ minus_one
unfolding feq
feq-minus_one x b h = ground arith

-- `x` does not exceed the limit, if there is one.
abbrev pub Within : Option F32 → F32 → Type 0
Within none x = Unit
Within (some limit) x = fgt x limit ≡ false
