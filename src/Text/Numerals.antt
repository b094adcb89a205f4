-- ===== src/Text/Numerals.antt =====
-- What `parse` reads as an unsigned number.
use ypf_fleet_fuel_distribut.Prelude.{
  ℕ, ◌+◌, ◌-◌, ◌*◌, ◌≤◌, ◌≡◌, refl, false, some, [], ◌∷◌, All, arith,
}
use ypf_fleet_fuel_distribut.Text.{Text, is_empty, parse_digits, skip_plus, parse_unsigned}

-- The number that digits spell behind `n`, with no bound.
abbrev pub value_from : ℕ → Text → ℕ
value_from n [] = n
value_from n (c ∷ cs) = value_from (n * 10 + (c - b'0')) cs

abbrev IsDigit : ℕ → Type 0
IsDigit c = (b'0' ≤ c) × (c ≤ b'9')

-- `text` spells `n`: an optional plus, then at least one digit.
abbrev pub IsNumeral : Text → ℕ → Type 0
IsNumeral text n =
    (is_empty text ≡ false) × All IsDigit (skip_plus text) × (value_from 0 (skip_plus text) ≡ n)

value_grows : (n : ℕ) (cs : Text) → n ≤ value_from n cs
value_grows n [] = omega arith
value_grows n (c ∷ cs) = omega (arith, value_grows (n * 10 + (c - b'0')) cs)

digits_read :
    (max n : ℕ) (cs : Text)
    → n ≤ max
    → All IsDigit cs
    → value_from n cs ≤ max
    → parse_digits max n cs ≡ some (value_from n cs)
unfolding parse_digits
digits_read max n [] fits all small = refl
digits_read max n (c ∷ cs) fits all small =
    let next = n * 10 + (c - b'0') in ground (arith, value_grows next cs, digits_read max next cs)

read_digits :
    (max n : ℕ) (cs : Text) (r : ℕ)
    → n ≤ max
    → parse_digits max n cs ≡ some r
    → All IsDigit cs × (value_from n cs ≡ r) × (r ≤ max)
unfolding parse_digits
read_digits max n [] r fits e = ground arith
read_digits max n (c ∷ cs) r fits e = ground (arith, read_digits max (n * 10 + (c - b'0')) cs r)

-- A numeral of a value that fits is read as that value.
pub numeral_parses :
    (max n : ℕ) (text : Text) → IsNumeral text n → n ≤ max → parse_unsigned max text ≡ some n
unfolding parse_unsigned
numeral_parses max n text h fits = ground (arith, digits_read max 0 (skip_plus text))

-- What is read is a numeral, and its value fits.
pub parsed_value :
    (max n : ℕ) (text : Text) → parse_unsigned max text ≡ some n → IsNumeral text n × (n ≤ max)
unfolding parse_unsigned
parsed_value max n text e = ground (arith, read_digits max 0 (skip_plus text) n)
