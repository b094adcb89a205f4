-- ===== src/Wire/Deserialize/Ops.antt =====
-- common/src/network/serials/deserialization/operation.rs
use ypf_fleet_fuel_distribut.Wire.Result.{
  ◌>>=◌, ◌>>◌, Result, ok, err, panic, guard, invalid_protocol,
}
use ypf_fleet_fuel_distribut.Prelude.{
  ℕ, ◌+◌, Bool, true, false, Option, none, some, List, [], ◌∷◌, length, leb, ◌==◌, if◌then◌else◌,
}
use ypf_fleet_fuel_distribut.Domain.{Operation}
use ypf_fleet_fuel_distribut.Wire.Bytes.{first, slice_from, is_utf8, is_boundary_one}
use ypf_fleet_fuel_distribut.Wire.Protocol.{
  op_type_charge, op_type_limit_card, op_type_limit_account, op_type_query_account, op_type_bill,
  op_get_database, op_replace_database, true_byte, false_byte, acc_id_srl_len, card_id_srl_len,
  amount_srl_len, charge_srl_len, limit_acc_srl_len, limit_card_srl_len,
}
use ypf_fleet_fuel_distribut.Wire.Deserialize.{
  deserialize_account_id, deserialize_card_id, deserialize_amount, deserialize_limit,
  deserialize_socket_address_srl, deserialize_database_snapshot,
}

unfoldable pub deserialize_replace_database_operation : List ℕ → Result Operation
deserialize_replace_database_operation payload = do
  snapshot ← deserialize_database_snapshot payload
  ok (Operation.replace_database snapshot)

unfoldable pub deserialize_get_database_operation : List ℕ → Result Operation
unfolding deserialize_socket_address_srl
deserialize_get_database_operation payload = do
  addr ← deserialize_socket_address_srl payload
  ok (Operation.get_database addr)

unfoldable pub deserialize_from_offline_station : List ℕ → Result Bool
unfolding first
deserialize_from_offline_station payload = do
  b ← first payload
  if b == true_byte then ok true else if b == false_byte then ok false else err invalid_protocol

unfoldable pub deserialize_charge_operation : List ℕ → Result Operation
unfolding deserialize_account_id deserialize_card_id deserialize_amount slice_from
    deserialize_from_offline_station
deserialize_charge_operation payload = do
  guard (length payload == charge_srl_len) invalid_protocol
  account_id ← deserialize_account_id payload
  card_id ← deserialize_card_id (← slice_from acc_id_srl_len payload)
  amount ← deserialize_amount (← slice_from (acc_id_srl_len + card_id_srl_len) payload)
  from_offline_station ←
      deserialize_from_offline_station
        (← slice_from (acc_id_srl_len + card_id_srl_len + amount_srl_len) payload)
  ok (Operation.charge account_id card_id amount from_offline_station)

unfoldable pub deserialize_limit_account_operation : List ℕ → Result Operation
unfolding deserialize_account_id deserialize_limit slice_from
deserialize_limit_account_operation payload = do
  guard (length payload == limit_acc_srl_len) invalid_protocol
  account_id ← deserialize_account_id payload
  new_limit ← deserialize_limit (← slice_from acc_id_srl_len payload)
  ok (Operation.limit_account account_id new_limit)

unfoldable pub deserialize_limit_card_operation : List ℕ → Result Operation
unfolding deserialize_account_id deserialize_card_id deserialize_limit slice_from
deserialize_limit_card_operation payload = do
  guard (length payload == limit_card_srl_len) invalid_protocol
  account_id ← deserialize_account_id payload
  card_id ← deserialize_card_id (← slice_from acc_id_srl_len payload)
  new_limit ← deserialize_limit (← slice_from (acc_id_srl_len + card_id_srl_len) payload)
  ok (Operation.limit_card account_id card_id new_limit)

unfoldable pub deserialize_query_account_operation : List ℕ → Result Operation
unfolding deserialize_account_id
deserialize_query_account_operation payload = do
  guard (length payload == acc_id_srl_len) invalid_protocol
  account_id ← deserialize_account_id payload
  ok (Operation.account_query account_id)

-- `s == "\0"`
abbrev pub is_nul : List ℕ → Bool
is_nul [] = false
is_nul (b ∷ []) = b == 0
is_nul (b ∷ c ∷ bs) = false

-- The bytes behind the account id, of which the first is the length: it is read as a character,
-- and the slice `s[1..]` panics where a character crosses it.
unfoldable pub deserialize_period : List ℕ → Result (Option (List ℕ))
deserialize_period [] = ok none
deserialize_period (b ∷ bs) =
    if is_utf8 (b ∷ bs)
    then if is_nul (b ∷ bs)
      then ok none
      else if is_boundary_one (b ∷ bs)
      then ok (some bs)
      else panic
    else err invalid_protocol

unfoldable pub deserialize_bill_operation : List ℕ → Result Operation
unfolding deserialize_account_id slice_from deserialize_period
deserialize_bill_operation payload = do
  guard (leb acc_id_srl_len (length payload)) invalid_protocol
  account_id ← deserialize_account_id payload
  period ← deserialize_period (← slice_from acc_id_srl_len payload)
  ok (Operation.bill account_id period)

-- `TryFrom<&[u8]> for Operation`, behind the type byte.
unfoldable pub deserialize_operation_of : ℕ → List ℕ → Result Operation
unfolding deserialize_charge_operation deserialize_limit_account_operation
    deserialize_limit_card_operation deserialize_query_account_operation deserialize_bill_operation
    deserialize_get_database_operation deserialize_replace_database_operation
deserialize_operation_of op_type payload =
    if op_type == op_type_charge
    then deserialize_charge_operation payload
    else if op_type == op_type_limit_account
    then deserialize_limit_account_operation payload
    else if op_type == op_type_limit_card
    then deserialize_limit_card_operation payload
    else if op_type == op_type_query_account
    then deserialize_query_account_operation payload
    else if op_type == op_type_bill
    then deserialize_bill_operation payload
    else if op_type == op_get_database
    then deserialize_get_database_operation payload
    else if op_type == op_replace_database
    then deserialize_replace_database_operation payload
    else err invalid_protocol

unfoldable pub deserialize_operation : List ℕ → Result Operation
unfolding deserialize_operation_of
deserialize_operation [] = panic
deserialize_operation (op_type ∷ payload) = deserialize_operation_of op_type payload
