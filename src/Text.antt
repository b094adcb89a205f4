-- ===== src/Text.antt =====
-- What the command lines of common/src/station.rs and client/src/administrator/main.rs use of the
-- standard library's strings: a text is the list of its characters.
pub mod Numerals
pub mod Words
pub mod Attempts
use Prim.Native.Char.{code}
use Prim.Native.String.{String}
use ypf_fleet_fuel_distribut.Prelude.{
  ℕ, ◌+◌, ◌-◌, ◌*◌, ◌^◌, Bool, true, false, ◌&&◌, ◌||◌, Option, none, some, List, [], ◌∷◌, ◌++◌,
  leb, ◌==◌, if◌then◌else◌,
}

abbrev pub Text : Type 0
Text = List ℕ

-- The characters of a literal.
abbrev pub codes : String → Text
codes String.[] = []
codes (String.◌∷◌ c s) = code c ∷ codes s

-- `char::is_whitespace`
unfoldable pub is_whitespace : ℕ → Bool
is_whitespace c =
    leb 0x09 c && leb c 0x0D
    || c == 0x20
    || c == 0x85
    || c == 0xA0
    || c == 0x1680
    || leb 0x2000 c && leb c 0x200A
    || c == 0x2028
    || c == 0x2029
    || c == 0x202F
    || c == 0x205F
    || c == 0x3000

abbrev pub is_empty : Text → Bool
is_empty [] = true
is_empty (c ∷ cs) = false

-- Puts a word in front, if there is one.
abbrev pub flush : Text → List Text → List Text
flush [] words = words
flush (c ∷ cs) words = (c ∷ cs) ∷ words

-- The words of a text, the first of which began with `word`.
unfoldable pub words_from : Text → Text → List Text
unfolding is_whitespace
words_from word [] = flush word []
words_from word (c ∷ cs) = elim (is_whitespace c) [
  | true ↦ flush word (words_from [] cs)
  | false ↦ words_from (word ++ c ∷ []) cs
]

-- `str::split_whitespace`
unfoldable pub split_whitespace : Text → List Text
unfolding words_from
split_whitespace line = words_from [] line

unfoldable pub trim_start : Text → Text
unfolding is_whitespace
trim_start [] = []
trim_start (c ∷ cs) = elim (is_whitespace c) [ true ↦ trim_start cs | false ↦ c ∷ cs ]

unfoldable pub trim_end : Text → Text
unfolding is_whitespace
trim_end [] = []
trim_end (c ∷ cs) =
    let rest = trim_end cs in if is_whitespace c && is_empty rest then [] else c ∷ rest

-- `str::trim`
unfoldable pub trim : Text → Text
unfolding trim_start trim_end
trim line = trim_end (trim_start line)

abbrev pub is_digit : ℕ → Bool
is_digit c = leb b'0' c && leb c b'9'

-- `checked_mul(10)` and `checked_add(digit)`, over the digits that are left.
unfoldable pub parse_digits : (max n : ℕ) → Text → Option ℕ
parse_digits max n [] = some n
parse_digits max n (c ∷ cs) =
    let next = n * 10 + (c - b'0') in
    let rest = parse_digits max next cs in if is_digit c && leb next max then rest else none

-- The text behind a sign: `+` is read, unless it stands alone.
abbrev pub skip_plus : Text → Text
skip_plus [] = []
skip_plus (c ∷ []) = c ∷ []
skip_plus (c ∷ d ∷ cs) = if c == b'+' then d ∷ cs else c ∷ d ∷ cs

-- `str::parse` of an unsigned type whose greatest value is `max`.
unfoldable pub parse_unsigned : ℕ → Text → Option ℕ
unfolding parse_digits
parse_unsigned max text = if is_empty text then none else parse_digits max 0 (skip_plus text)

-- `u64`, and `usize` on a 64-bit machine.
abbrev pub max_u64 : ℕ
max_u64 = 2 ^ 64 - 1

abbrev pub to_lower : ℕ → ℕ
to_lower c = if leb b'A' c && leb c b'Z' then c + 32 else c

-- `==` of two texts
unfoldable pub same_text : Text → Text → Bool
same_text [] [] = true
same_text (c ∷ cs) (d ∷ ds) = c == d && same_text cs ds
same_text _ _ = false

-- `str::eq_ignore_ascii_case`
unfoldable pub eq_ignore_ascii_case : Text → Text → Bool
eq_ignore_ascii_case [] [] = true
eq_ignore_ascii_case (c ∷ cs) (d ∷ ds) = to_lower c == to_lower d && eq_ignore_ascii_case cs ds
eq_ignore_ascii_case _ _ = false
