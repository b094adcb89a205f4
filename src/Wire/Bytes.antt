-- ===== src/Wire/Bytes.antt =====
-- What the serializers use of the standard library: big-endian numbers, slices, UTF-8.
use ypf_fleet_fuel_distribut.Wire.Result.{◌>>=◌, Result, ok, panic}
use ypf_fleet_fuel_distribut.Prelude.{
  ◌-◌, ◌∙◌, not, ℕ, zero, suc, ◌+◌, ◌*◌, ◌/◌, ◌%◌, ◌^◌, ◌<◌, ◌≡◌, refl, Bool, true, false, ◌&&◌,
  Option, none, some, List, [], ◌∷◌, ◌++◌, ltb, leb, ◌==◌, if◌then◌else◌, arith,
}
use native.Mathlib.Nat.{pow-suc}

abbrev pub IsU16 : ℕ → Type 0
IsU16 v = v < 2 ^ 16

abbrev pub IsU32 : ℕ → Type 0
IsU32 v = v < 2 ^ 32

abbrev pub IsU64 : ℕ → Type 0
IsU64 v = v < 2 ^ 64

-- `v.to_be_bytes()` of a type of `k` bytes.
unfoldable pub to_be_bytes : ℕ → ℕ → List ℕ
to_be_bytes zero v = []
to_be_bytes (suc k) v = to_be_bytes k (v / 256) ++ v % 256 ∷ []

from_be : ℕ → List ℕ → ℕ
from_be acc [] = acc
from_be acc (b ∷ bs) = from_be (acc * 256 + b) bs

-- `from_be_bytes`
unfoldable pub from_be_bytes : List ℕ → ℕ
unfolding from_be
from_be_bytes bs = from_be 0 bs

-- `payload[n..]`
unfoldable pub slice_from : ℕ → List ℕ → Result (List ℕ)
slice_from zero bs = ok bs
slice_from (suc n) [] = panic
slice_from (suc n) (b ∷ bs) = slice_from n bs

-- `payload[0..n]`
unfoldable pub slice_to : ℕ → List ℕ → Result (List ℕ)
slice_to zero bs = ok []
slice_to (suc n) [] = panic
slice_to (suc n) (b ∷ bs) = do front ← slice_to n bs; ok (b ∷ front)

-- `payload[0]`
unfoldable pub first : List ℕ → Result ℕ
first [] = panic
first (b ∷ bs) = ok b

-- How many bytes of a character are to come, and the range of the next one.
pub record Utf8State : Type 0 where
  pub rest : ℕ
  pub low : ℕ
  pub high : ℕ

abbrev pub in_range : ℕ → ℕ → ℕ → Bool
in_range low high b = leb low b && leb b high

abbrev pub utf8_state : ℕ → ℕ → ℕ → Utf8State
utf8_state rest low high = record { rest = rest; low = low; high = high }

abbrev pub utf8_start : Utf8State
utf8_start = utf8_state 0 0 0

-- The first byte of a character.
utf8_first : ℕ → Option Utf8State
utf8_first b =
    if ltb b 0x80
    then some utf8_start
    else if in_range 0xC2 0xDF b
    then some (utf8_state 1 0x80 0xBF)
    else if b == 0xE0
    then some (utf8_state 2 0xA0 0xBF)
    else if b == 0xED
    then some (utf8_state 2 0x80 0x9F)
    else if in_range 0xE1 0xEF b
    then some (utf8_state 2 0x80 0xBF)
    else if b == 0xF0
    then some (utf8_state 3 0x90 0xBF)
    else if in_range 0xF1 0xF3 b
    then some (utf8_state 3 0x80 0xBF)
    else if b == 0xF4
    then some (utf8_state 3 0x80 0x8F)
    else none

utf8_step : Utf8State → ℕ → Option Utf8State
unfolding utf8_first
utf8_step s b =
    if s.rest == 0
    then utf8_first b
    else if in_range s.low s.high b
    then some (utf8_state (s.rest - 1) 0x80 0xBF)
    else none

-- `std::str::from_utf8(bytes).is_ok()`, in the middle of a character.
utf8_from : Utf8State → List ℕ → Bool
unfolding utf8_step
utf8_from s [] = s.rest == 0
utf8_from s (b ∷ bs) = elim (utf8_step s b) [ none ↦ false | some t ↦ utf8_from t bs ]

unfoldable pub is_utf8 : List ℕ → Bool
unfolding utf8_from
is_utf8 bs = utf8_from utf8_start bs

-- `s.is_char_boundary(1)` for a text of at least one byte: the second byte continues no character.
unfoldable pub is_boundary_one : List ℕ → Bool
is_boundary_one [] = false
is_boundary_one (b ∷ []) = true
is_boundary_one (b ∷ c ∷ bs) = not (in_range 0x80 0xBF c)

from_be-append :
    (acc : ℕ) (bs : List ℕ) (b : ℕ) → from_be acc (bs ++ b ∷ []) ≡ from_be acc bs * 256 + b
unfolding from_be
from_be-append acc [] b = refl
from_be-append acc (c ∷ bs) b = from_be-append (acc * 256 + c) bs b

-- Reading the bytes of a number gives it back.
pub from-to_be_bytes : (k v : ℕ) → v < 256 ^ k → from_be_bytes (to_be_bytes k v) ≡ v
unfolding from_be_bytes to_be_bytes
from-to_be_bytes zero v h = omega arith
from-to_be_bytes (suc k) v h =
    from_be-append 0 (to_be_bytes k (v / 256)) (v % 256)
    ∙ omega (arith, from-to_be_bytes k (v / 256) (omega (arith, pow-suc 256 k)))

-- A text that begins with an ASCII byte.
pub is_utf8-ascii : (b : ℕ) (bs : List ℕ) → b < 0x80 → is_utf8 (b ∷ bs) ≡ is_utf8 bs
unfolding is_utf8
is_utf8-ascii b bs h = ground arith

-- No text begins in the middle of a character.
pub is_utf8-boundary :
    (b c : ℕ) (bs : List ℕ) → is_utf8 (c ∷ bs) ≡ true → is_boundary_one (b ∷ c ∷ bs) ≡ true
unfolding is_utf8 is_boundary_one
is_utf8-boundary b c bs h = ground arith
