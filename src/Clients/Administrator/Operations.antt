-- ===== src/Clients/Administrator/Operations.antt =====
-- What the administrator of client/src/administrator/ asks of the cluster.
use ypf_fleet_fuel_distribut.Prelude.{
  Bool-cases, ℕ, ◌≡◌, refl, inl, inr, true, Option, none, some, List, [], ◌∷◌, arith,
}
use ypf_fleet_fuel_distribut.Float.{F32, fgt, pos_zero}
use ypf_fleet_fuel_distribut.Domain.{Operation}
use ypf_fleet_fuel_distribut.Text.{Text, split_whitespace}
use ypf_fleet_fuel_distribut.Text.Attempts.{ok}
use ypf_fleet_fuel_distribut.Clients.Administrator.{
  AdminCommand, Administrator, new_limit, parse_limit_account, parse_limit_card,
  parse_account_query, parse_bill, parse_words, parse_line_to_command, build_operation,
}

abbrev IsPositiveLimit : Option F32 → Type 0
IsPositiveLimit none = Unit {0}
IsPositiveLimit (some limit) = fgt limit pos_zero ≡ true

-- An operation of an administrator on account `id`; it sets no limit but a positive one.
abbrev pub IsOwnOperation : (id : ℕ) → Operation → Type 0
IsOwnOperation id (Operation.limit_account account_id limit) =
    (account_id ≡ id) × IsPositiveLimit limit
IsOwnOperation id (Operation.limit_card account_id card_id limit) =
    (account_id ≡ id) × IsPositiveLimit limit
IsOwnOperation id (Operation.account_query account_id) = account_id ≡ id
IsOwnOperation id (Operation.bill account_id period) = account_id ≡ id
IsOwnOperation id other = ⊥

-- A command on account `id`.
abbrev account_of : AdminCommand → ℕ
account_of (AdminCommand.limit_account account_id amount) = account_id
account_of (AdminCommand.limit_card account_id card_id amount) = account_id
account_of (AdminCommand.account_query account_id) = account_id
account_of (AdminCommand.bill account_id period) = account_id

new_limit-IsPositive : (amount : F32) → IsPositiveLimit (new_limit amount)
new_limit-IsPositive amount = elim (Bool-cases (fgt amount pos_zero)) [
  | inl positive ↦ rw positive positive
  | inr other ↦ rw other tt
]

own_operation :
    (admin : Administrator) (cmd : AdminCommand)
    → account_of cmd ≡ admin.account_id
    → (op : Operation) × (build_operation admin cmd ≡ some op) × IsOwnOperation admin.account_id op
unfolding build_operation
own_operation admin (AdminCommand.limit_account id amount) e = (
  Operation.limit_account id (new_limit amount),
  ground (arith, e),
  (e, new_limit-IsPositive amount),
)
own_operation admin (AdminCommand.limit_card id card_id amount) e = (
  Operation.limit_card id card_id (new_limit amount),
  ground (arith, e),
  (e, new_limit-IsPositive amount),
)
own_operation admin (AdminCommand.account_query id) e = (Operation.account_query id, refl, e)
own_operation admin (AdminCommand.bill id period) e = (Operation.bill id period, refl, e)

limit_account_own :
    (read_amount : Text → Option F32) (id : ℕ) (args : List Text) (cmd : AdminCommand)
    → parse_limit_account read_amount id args ≡ ok cmd
    → account_of cmd ≡ id
unfolding parse_limit_account
limit_account_own read_amount id [] cmd e = absurd (cc)
limit_account_own read_amount id (t0 ∷ []) cmd e = ground arith
limit_account_own read_amount id (t0 ∷ t1 ∷ args) cmd e = absurd (cc)

limit_card_own :
    (read_amount : Text → Option F32) (id : ℕ) (args : List Text) (cmd : AdminCommand)
    → parse_limit_card read_amount id args ≡ ok cmd
    → account_of cmd ≡ id
unfolding parse_limit_card
limit_card_own read_amount id [] cmd e = absurd (cc)
limit_card_own read_amount id (t0 ∷ []) cmd e = absurd (cc)
limit_card_own read_amount id (t0 ∷ t1 ∷ []) cmd e = ground arith
limit_card_own read_amount id (t0 ∷ t1 ∷ t2 ∷ args) cmd e = absurd (cc)

account_query_own :
    (id : ℕ) (args : List Text) (cmd : AdminCommand)
    → parse_account_query id args ≡ ok cmd
    → account_of cmd ≡ id
unfolding parse_account_query
account_query_own id [] cmd e = ground (arith, e)
account_query_own id (t0 ∷ args) cmd e = absurd (cc)

bill_own :
    (id : ℕ) (args : List Text) (cmd : AdminCommand)
    → parse_bill id args ≡ ok cmd
    → account_of cmd ≡ id
unfolding parse_bill
bill_own id [] cmd e = ground (arith, e)
bill_own id (t0 ∷ []) cmd e = ground (arith, e)
bill_own id (t0 ∷ t1 ∷ args) cmd e = absurd (cc)

words_own :
    (read_amount : Text → Option F32) (id : ℕ) (words : List Text) (cmd : AdminCommand)
    → parse_words read_amount id words ≡ ok cmd
    → account_of cmd ≡ id
unfolding parse_words
words_own read_amount id [] cmd e = absurd (cc)
words_own read_amount id (word ∷ args) cmd e = ground (
  arith,
  limit_account_own read_amount id args cmd,
  limit_card_own read_amount id args cmd,
  account_query_own id args cmd,
  bill_own id args cmd,
)

line_own :
    (read_amount : Text → Option F32) (id : ℕ) (line : Text) (cmd : AdminCommand)
    → parse_line_to_command read_amount line id ≡ ok cmd
    → account_of cmd ≡ id
unfolding parse_line_to_command
line_own read_amount id line = words_own read_amount id (split_whitespace line)

-- A line that is a command never fails the assertion, and the operation is on the administrator's own
-- account; a limit that it sets is greater than zero.
pub command_line_builds_operation :
    (read_amount : Text → Option F32) (admin : Administrator) (line : Text) (cmd : AdminCommand)
    → parse_line_to_command read_amount line admin.account_id ≡ ok cmd
    → (op : Operation) × (build_operation admin cmd ≡ some op) × IsOwnOperation admin.account_id op
command_line_builds_operation read_amount admin line cmd e =
    own_operation admin cmd (line_own read_amount admin.account_id line cmd e)
