-- ===== src/Float/Tests.antt =====
-- Sums and comparisons of concrete `f32` values.
use ypf_fleet_fuel_distribut.Prelude.{◌≡◌, refl, true, false, [], ◌∷◌}
use ypf_fleet_fuel_distribut.Float.{fadd, fgt, feq, fsum, minus_one, pos_zero, neg_zero, infinity}

-- 20.0 + 30.0 = 50.0
add_exact : fadd 0x41A00000 0x41F00000 ≡ 0x42480000
unfolding fadd
add_exact = refl

-- 0.1 + 0.2 = 0.3 (rounded: 0x3E99999A)
add_rounded : fadd 0x3DCCCCCD 0x3E4CCCCD ≡ 0x3E99999A
unfolding fadd
add_rounded = refl

-- 2^24 + 1 = 2^24: the tie goes to the even neighbour.
add_tie : fadd 0x4B800000 0x3F800000 ≡ 0x4B800000
unfolding fadd
add_tie = refl

-- 1.0 + -1.0 = 0.0, and the largest value doubled is infinity.
add_cancel : fadd 0x3F800000 minus_one ≡ pos_zero
unfolding fadd
add_cancel = refl

add_overflow : fadd 0x7F7FFFFF 0x7F7FFFFF ≡ infinity
unfolding fadd
add_overflow = refl

zeros_equal : feq pos_zero neg_zero ≡ true
unfolding feq
zeros_equal = refl

negative_below : fgt minus_one pos_zero ≡ false
unfolding fgt
negative_below = refl

sum_three : fsum (0x3F800000 ∷ 0x40000000 ∷ 0x40400000 ∷ []) ≡ 0x40C00000
unfolding fsum fadd
sum_three = refl
