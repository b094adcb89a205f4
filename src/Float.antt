-- ===== src/Float.antt =====
-- The `f32` of the amounts and limits (server/src/node/actors/, common/src/operation.rs), as IEEE
-- 754 bit patterns. A NaN result is always the canonical one: no code reads a NaN's payload.
pub mod Order
mod Tests
use ypf_fleet_fuel_distribut.Prelude.{
  ℕ, zero, suc, ◌+◌, ◌-◌, ◌*◌, ◌/◌, ◌%◌, ◌^◌, ◌<◌, Bool, true, false, ◌&&◌, ◌||◌, not, ltb, leb,
  ◌==◌, if◌then◌else◌, List, [], ◌∷◌,
}

abbrev pub F32 : Type 0
F32 = ℕ

abbrev pub IsF32 : F32 → Type 0
IsF32 x = x < 2 ^ 32

-- `0.0`, `-0.0`, `-1.0`
abbrev pub pos_zero : F32
pos_zero = 0

abbrev pub neg_zero : F32
neg_zero = 0x80000000

abbrev pub minus_one : F32
minus_one = 0xBF800000

abbrev pub infinity : F32
infinity = 0x7F800000

abbrev pub canonical_nan : F32
canonical_nan = 0x7FC00000

-- The pattern without its sign bit.
abbrev pub magnitude : F32 → ℕ
magnitude x = x % 2 ^ 31

abbrev pub is_negative : F32 → Bool
is_negative x = not (x / 2 ^ 31 == 0)

abbrev pub is_nan : F32 → Bool
is_nan x = ltb infinity (magnitude x)

-- A number that orders the patterns which are not NaN as their values; both zeros have the same.
abbrev pub order_key : F32 → ℕ
order_key x = if is_negative x then 2 ^ 31 - magnitude x else 2 ^ 31 + magnitude x

abbrev are_ordered : F32 → F32 → Bool
are_ordered x y = not (is_nan x) && not (is_nan y)

-- `x > y`, `x >= y` and `x == y`: all false on a NaN.
unfoldable pub fgt : F32 → F32 → Bool
fgt x y = are_ordered x y && ltb (order_key y) (order_key x)

unfoldable pub fge : F32 → F32 → Bool
fge x y = are_ordered x y && leb (order_key y) (order_key x)

unfoldable pub feq : F32 → F32 → Bool
feq x y = are_ordered x y && order_key x == order_key y

-- The magnitude of a finite pattern as a multiple of 2^-149, the least positive value.
units : F32 → ℕ
units x =
    let e = magnitude x / 2 ^ 23 in
    let m = magnitude x % 2 ^ 23 in if e == 0 then m else (m + 2 ^ 23) * 2 ^ (e - 1)

-- How often `n` can be halved until it is below 2^24; the fuel is the number of bits of the largest
-- sum.
excess_bits : ℕ → ℕ → ℕ
excess_bits zero n = 0
excess_bits (suc fuel) n = elim (ltb n (2 ^ 24)) [
  | true ↦ 0
  | false ↦ suc (excess_bits fuel (n / 2))
]

-- The pattern of the value nearest to `n` units, ties to even; too large a value is infinity.
round_units : ℕ → F32
unfolding excess_bits
round_units n =
    let k = excess_bits 300 n in
    let q = n / 2 ^ k in
    let r = 2 * (n % 2 ^ k) in
    let up = ltb (2 ^ k) r || (r == 2 ^ k && q % 2 == 1) in
    let bits = k * 2 ^ 23 + (if up && not (k == 0) then q + 1 else q) in
    if ltb bits infinity then bits else infinity

with_sign : Bool → ℕ → F32
with_sign negative mag = if negative then 2 ^ 31 + mag else mag

-- The sum of two finite patterns.
add_finite : F32 → F32 → F32
unfolding units round_units with_sign
add_finite x y =
    let sx = is_negative x in
    let sy = is_negative y in
    let ux = units x in
    let uy = units y in
    if (sx && sy) || (not sx && not sy)
    then with_sign sx (round_units (ux + uy))
    else if ux == uy
    then pos_zero
    else if ltb uy ux
    then with_sign sx (round_units (ux - uy))
    else with_sign sy (round_units (uy - ux))

abbrev is_infinite : F32 → Bool
is_infinite x = magnitude x == infinity

-- `x + y`
unfoldable pub fadd : F32 → F32 → F32
unfolding add_finite
fadd x y =
    if is_nan x || is_nan y
    then canonical_nan
    else if is_infinite x
    then (if is_infinite y && not (x == y) then canonical_nan else x)
    else if is_infinite y
    then y
    else add_finite x y

-- `iter().sum::<f32>()`: from the left, beginning with -0.0, which is neutral.
unfoldable pub fsum_from : F32 → List F32 → F32
fsum_from acc [] = acc
fsum_from acc (x ∷ xs) = fsum_from (fadd acc x) xs

unfoldable pub fsum : List F32 → F32
unfolding fsum_from
fsum xs = fsum_from neg_zero xs
