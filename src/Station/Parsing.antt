-- ===== src/Station/Parsing.antt =====
-- What `parse_command` of common/src/station.rs accepts.
use mathlib.Core.Logic.{◌↔◌}
use ypf_fleet_fuel_distribut.Prelude.{
  ℕ, ◌≤◌, ◌<◌, ◌≡◌, ◌∙◌, ap, Option, some, List, [], ◌∷◌, ◌++◌, All, arith,
}
use ypf_fleet_fuel_distribut.Float.{F32}
use ypf_fleet_fuel_distribut.Text.{Text, split_whitespace, parse_unsigned, max_u64}
use ypf_fleet_fuel_distribut.Text.Attempts.{ok}
use ypf_fleet_fuel_distribut.Text.Numerals.{IsNumeral, numeral_parses, parsed_value}
use ypf_fleet_fuel_distribut.Text.Words.{IsWord, spaced, split-spaced}
use ypf_fleet_fuel_distribut.Station.{ParsedCommand, parse_tokens, parse_command}

-- Four tokens that spell a command for one of `n` pumps.
abbrev pub SpellsCommand : (Text → Option F32) → ℕ → List Text → ParsedCommand → Type 0
SpellsCommand read_amount n (t0 ∷ t1 ∷ t2 ∷ t3 ∷ []) c =
    IsNumeral t0 c.pump_id
    × (c.pump_id < n)
    × (c.pump_id ≤ max_u64)
    × IsNumeral t1 c.account_id
    × (c.account_id ≤ max_u64)
    × IsNumeral t2 c.card_id
    × (c.card_id ≤ max_u64)
    × (read_amount t3 ≡ some c.amount)
SpellsCommand read_amount n tokens c = ⊥

parsed_fields :
    (read_amount : Text → Option F32) (n : ℕ) (t0 t1 t2 t3 : Text) (c : ParsedCommand)
    → parse_tokens read_amount n (t0 ∷ t1 ∷ t2 ∷ t3 ∷ []) ≡ ok c
    → (parse_unsigned max_u64 t0 ≡ some c.pump_id)
      × (c.pump_id < n)
      × (parse_unsigned max_u64 t1 ≡ some c.account_id)
      × (parse_unsigned max_u64 t2 ≡ some c.card_id)
      × (read_amount t3 ≡ some c.amount)
unfolding parse_tokens
parsed_fields read_amount n t0 t1 t2 t3 c e = ground arith

read_tokens :
    (read_amount : Text → Option F32) (n : ℕ) (tokens : List Text) (c : ParsedCommand)
    → parse_tokens read_amount n tokens ≡ ok c
    → SpellsCommand read_amount n tokens c
unfolding parse_tokens
read_tokens read_amount n [] c e = cc
read_tokens read_amount n (t0 ∷ []) c e = cc
read_tokens read_amount n (t0 ∷ t1 ∷ []) c e = cc
read_tokens read_amount n (t0 ∷ t1 ∷ t2 ∷ []) c e = cc
read_tokens read_amount n (t0 ∷ t1 ∷ t2 ∷ t3 ∷ []) c e =
    let (p0, small, p1, p2, p3) = parsed_fields read_amount n t0 t1 t2 t3 c e in
    let (n0, b0) = parsed_value max_u64 c.pump_id t0 p0 in
    let (n1, b1) = parsed_value max_u64 c.account_id t1 p1 in
    let (n2, b2) = parsed_value max_u64 c.card_id t2 p2 in (n0, small, b0, n1, b1, n2, b2, p3)
read_tokens read_amount n (t0 ∷ t1 ∷ t2 ∷ t3 ∷ t4 ∷ tokens) c e = cc

spelled_tokens :
    (read_amount : Text → Option F32) (n : ℕ) (tokens : List Text) (c : ParsedCommand)
    → SpellsCommand read_amount n tokens c
    → parse_tokens read_amount n tokens ≡ ok c
unfolding parse_tokens
spelled_tokens read_amount n [] c h = absurd h
spelled_tokens read_amount n (t0 ∷ []) c h = absurd h
spelled_tokens read_amount n (t0 ∷ t1 ∷ []) c h = absurd h
spelled_tokens read_amount n (t0 ∷ t1 ∷ t2 ∷ []) c h = absurd h
spelled_tokens read_amount n (t0 ∷ t1 ∷ t2 ∷ t3 ∷ []) c (n0, small, b0, n1, b1, n2, b2, p3) =
    ground (
      arith,
      numeral_parses max_u64 c.pump_id t0 n0 b0,
      numeral_parses max_u64 c.account_id t1 n1 b1,
      numeral_parses max_u64 c.card_id t2 n2 b2,
    )
spelled_tokens read_amount n (t0 ∷ t1 ∷ t2 ∷ t3 ∷ t4 ∷ tokens) c h = absurd h

-- A line is read as a command exactly when it consists of four words that spell it: the decimal number
-- of a pump that exists, of an account and of a card, all below 2^64, with or without a plus sign,
-- and an amount.
pub parse_command_iff :
    (read_amount : Text → Option F32) (n : ℕ) (line : Text) (c : ParsedCommand)
    → (parse_command read_amount n line ≡ ok c)
      ↔ SpellsCommand read_amount n (split_whitespace line) c
unfolding parse_command
parse_command_iff read_amount n line c = (
  read_tokens read_amount n (split_whitespace line) c,
  spelled_tokens read_amount n (split_whitespace line) c,
)

-- Four words with spaces between them that spell a command are read as this command.
pub spelled_command :
    (read_amount : Text → Option F32) (n : ℕ) (t0 t1 t2 t3 : Text) (c : ParsedCommand)
    → IsWord t0
    → All IsWord (t1 ∷ t2 ∷ t3 ∷ [])
    → SpellsCommand read_amount n (t0 ∷ t1 ∷ t2 ∷ t3 ∷ []) c
    → parse_command read_amount n (t0 ++ spaced (t1 ∷ t2 ∷ t3 ∷ [])) ≡ ok c
unfolding parse_command
spelled_command read_amount n t0 t1 t2 t3 c h hs spells =
    ap (parse_tokens read_amount n) (split-spaced t0 (t1 ∷ t2 ∷ t3 ∷ []) h hs)
    ∙ spelled_tokens read_amount n (t0 ∷ t1 ∷ t2 ∷ t3 ∷ []) c spells
