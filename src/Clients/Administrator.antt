-- ===== src/Clients/Administrator.antt =====
-- The administrator of client/src/administrator/: the commands of administrator.rs and the lines of
-- main.rs. `read_amount` stands for `str::parse::<f32>`.
pub mod Session
pub mod Operations
pub mod Requests
pub mod Reports
mod Tests
use ypf_fleet_fuel_distribut.Prelude.{
  ℕ, ◌+◌, ◌/◌, ◌%◌, Option, none, some, List, [], ◌∷◌, ◌++◌, ltb, leb, ◌==◌, if◌then◌else◌,
}
use ypf_fleet_fuel_distribut.Float.{F32, fgt, pos_zero}
use ypf_fleet_fuel_distribut.Domain.{
  SocketAddr, VerifyError, Operation, ChargeResult, LimitResult, OperationResult,
}
use ypf_fleet_fuel_distribut.Text.{
  Text, codes, same_text, split_whitespace, parse_unsigned, max_u64,
}
use ypf_fleet_fuel_distribut.Text.Attempts.{Attempt, err, ok, ◌>>=◌, or_error}

pub data AdminCommand : Type 0 where
  limit_account : (account_id : ℕ) (amount : F32) → AdminCommand
  limit_card : (account_id card_id : ℕ) (amount : F32) → AdminCommand
  account_query : (account_id : ℕ) → AdminCommand
  bill : (account_id : ℕ) (period : Option (List ℕ)) → AdminCommand

pub record Administrator : Type 0 where
  pub bind_addr : SocketAddr
  pub target_node : SocketAddr
  pub account_id : ℕ
  pub next_req_id : ℕ

unfoldable pub new_administrator : SocketAddr → SocketAddr → ℕ → Administrator
new_administrator bind_addr target_node account_id = record {
  bind_addr = bind_addr;
  target_node = target_node;
  account_id = account_id;
  next_req_id = 1;
}

-- Why a line is no command.
pub data LineError : Type 0 where
  empty_line usage_limit_account usage_limit_card usage_account_query usage_bill : LineError
  invalid_amount invalid_card_id unknown_command : (token : Text) → LineError

-- The bytes of a character and of a text: `to_string` of a word.
abbrev pub utf8_char : ℕ → List ℕ
utf8_char c =
    if ltb c 0x80
    then c ∷ []
    else if ltb c 0x800
    then (0xC0 + c / 64) ∷ (0x80 + c % 64) ∷ []
    else if ltb c 0x10000
    then (0xE0 + c / 4096) ∷ (0x80 + c / 64 % 64) ∷ (0x80 + c % 64) ∷ []
    else (0xF0 + c / 262144) ∷ (0x80 + c / 4096 % 64) ∷ (0x80 + c / 64 % 64) ∷ (0x80 + c % 64) ∷ []

unfoldable pub to_string : Text → List ℕ
to_string [] = []
to_string (c ∷ cs) = utf8_char c ++ to_string cs

-- The arms of `parse_line_to_command`, each on the words behind the command.
unfoldable pub parse_limit_account :
    (Text → Option F32) → (account_id : ℕ) → List Text → Attempt LineError AdminCommand
parse_limit_account read_amount account_id (t0 ∷ []) = do
  amount ← or_error (read_amount t0) (LineError.invalid_amount t0)
  ok (AdminCommand.limit_account account_id amount)
parse_limit_account read_amount account_id args = err LineError.usage_limit_account

unfoldable pub parse_limit_card :
    (Text → Option F32) → (account_id : ℕ) → List Text → Attempt LineError AdminCommand
parse_limit_card read_amount account_id (t0 ∷ t1 ∷ []) = do
  card_id ← or_error (parse_unsigned max_u64 t0) (LineError.invalid_card_id t0)
  amount ← or_error (read_amount t1) (LineError.invalid_amount t1)
  ok (AdminCommand.limit_card account_id card_id amount)
parse_limit_card read_amount account_id args = err LineError.usage_limit_card

unfoldable pub parse_account_query : (account_id : ℕ) → List Text → Attempt LineError AdminCommand
parse_account_query account_id [] = ok (AdminCommand.account_query account_id)
parse_account_query account_id (t0 ∷ args) = err LineError.usage_account_query

unfoldable pub parse_bill : (account_id : ℕ) → List Text → Attempt LineError AdminCommand
unfolding to_string
parse_bill account_id [] = ok (AdminCommand.bill account_id none)
parse_bill account_id (t0 ∷ []) = ok (AdminCommand.bill account_id (some (to_string t0)))
parse_bill account_id args = err LineError.usage_bill

-- `parse_line_to_command` on the words of a line.
unfoldable pub parse_words :
    (Text → Option F32) → (account_id : ℕ) → List Text → Attempt LineError AdminCommand
parse_words read_amount account_id [] = err LineError.empty_line
parse_words read_amount account_id (cmd ∷ args) =
    if same_text cmd (codes "limit-account")
    then parse_limit_account read_amount account_id args
    else if same_text cmd (codes "limit-card")
    then parse_limit_card read_amount account_id args
    else if same_text cmd (codes "account-query")
    then parse_account_query account_id args
    else if same_text cmd (codes "bill")
    then parse_bill account_id args
    else err (LineError.unknown_command cmd)

unfoldable pub parse_line_to_command :
    (Text → Option F32) → Text → (account_id : ℕ) → Attempt LineError AdminCommand
unfolding parse_words
parse_line_to_command read_amount line account_id =
    parse_words read_amount account_id (split_whitespace line)

-- `if amount > 0.0 { Some(amount) } else { None }`
abbrev pub new_limit : F32 → Option F32
new_limit amount = if fgt amount pos_zero then some amount else none

-- Nothing, where `assert_eq!` panics.
unfoldable pub build_operation : Administrator → AdminCommand → Option Operation
build_operation admin (AdminCommand.limit_account account_id amount) =
    if account_id == admin.account_id
    then some (Operation.limit_account account_id (new_limit amount))
    else none
build_operation admin (AdminCommand.limit_card account_id card_id amount) =
    if account_id == admin.account_id
    then some (Operation.limit_card account_id card_id (new_limit amount))
    else none
build_operation admin (AdminCommand.account_query account_id) =
    some (Operation.account_query account_id)
build_operation admin (AdminCommand.bill account_id period) =
    some (Operation.bill account_id period)

-- `sort_by_key(|(card_id, _)| *card_id)`: a stable sort, by insertion.
unfoldable pub insert_by_card : ℕ × F32 → List (ℕ × F32) → List (ℕ × F32)
insert_by_card e [] = e ∷ []
insert_by_card e (d ∷ l) =
    let rest = insert_by_card e l in if leb e.0 d.0 then e ∷ d ∷ l else d ∷ rest

unfoldable pub sort_by_card : List (ℕ × F32) → List (ℕ × F32)
unfolding insert_by_card
sort_by_card [] = []
sort_by_card (e ∷ l) = insert_by_card e (sort_by_card l)

-- What is printed of a result.
pub data Report : Type 0 where
  charge_ok limit_account_ok limit_card_ok : Report
  charge_error limit_account_error limit_card_error : (error : VerifyError) → Report
  account : (account_id : ℕ) (total_spent : F32) (per_card_spent : List (ℕ × F32)) → Report

-- Nothing, where it panics.
unfoldable pub handle_op_result : OperationResult → Option Report
handle_op_result (OperationResult.charge ChargeResult.ok) = some Report.charge_ok
handle_op_result (OperationResult.charge (ChargeResult.failed error)) =
    some (Report.charge_error error)
handle_op_result (OperationResult.limit_account LimitResult.ok) = some Report.limit_account_ok
handle_op_result (OperationResult.limit_account (LimitResult.failed error)) =
    some (Report.limit_account_error error)
handle_op_result (OperationResult.limit_card LimitResult.ok) = some Report.limit_card_ok
handle_op_result (OperationResult.limit_card (LimitResult.failed error)) =
    some (Report.limit_card_error error)
handle_op_result (OperationResult.account_query result) =
    some (Report.account result.account_id result.total_spent (sort_by_card result.per_card_spent))
handle_op_result other = none
