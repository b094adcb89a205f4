-- ===== src/Wire/Deserialize/Results.antt =====
-- common/src/network/serials/deserialization/operation_result.rs
use ypf_fleet_fuel_distribut.Wire.Result.{
  ◌>>=◌, ◌>>◌, Result, ok, err, panic, guard, invalid_protocol,
}
use ypf_fleet_fuel_distribut.Prelude.{
  ℕ, zero, suc, ◌+◌, List, [], ◌∷◌, length, leb, ◌==◌, if◌then◌else◌,
}
use ypf_fleet_fuel_distribut.Float.{F32}
use ypf_fleet_fuel_distribut.Domain.{
  VerifyError, LimitCheckError, LimitUpdateError, ChargeResult, LimitResult, OperationResult,
}
use ypf_fleet_fuel_distribut.Wire.Bytes.{first, slice_from}
use ypf_fleet_fuel_distribut.Wire.Protocol.{
  charge_result_type, limit_account_result, limit_card_result, acc_query_result, ok_byte, err_byte,
  limit_update_err, charge_limit_err, below_current_usage_code, card_limit_exceeded_code,
  acc_limit_exceeded_code, limit_check_err_len, acc_id_srl_len, card_id_srl_len, amount_srl_len,
  per_card_spent_len, card_spent_len,
}
use ypf_fleet_fuel_distribut.Wire.Deserialize.{
  read_be, deserialize_account_id, deserialize_card_id, deserialize_amount,
}

unfoldable pub deserialize_card_spent : List ℕ → Result (ℕ × F32)
unfolding deserialize_card_id deserialize_amount slice_from
deserialize_card_spent payload = do
  card_id ← deserialize_card_id payload
  amount ← deserialize_amount (← slice_from card_id_srl_len payload)
  ok (card_id, amount)

unfoldable pub deserialize_per_card_spent : ℕ → List ℕ → Result (List (ℕ × F32))
unfolding slice_from
deserialize_per_card_spent zero payload = ok []
deserialize_per_card_spent (suc n) payload = do
  spent ← deserialize_card_spent payload
  rest ← deserialize_per_card_spent n (← slice_from card_spent_len payload)
  ok (spent ∷ rest)

unfoldable pub deserialize_account_query_result : List ℕ → Result OperationResult
unfolding read_be deserialize_account_id deserialize_amount slice_from
deserialize_account_query_result payload = do
  account_id ← deserialize_account_id payload
  total_spent ← deserialize_amount (← slice_from acc_id_srl_len payload)
  at_len ← slice_from (acc_id_srl_len + amount_srl_len) payload
  len ← read_be per_card_spent_len at_len
  per_card_spent ← deserialize_per_card_spent len (← slice_from per_card_spent_len at_len)
  ok (
      OperationResult.account_query (record {
        account_id = account_id;
        total_spent = total_spent;
        per_card_spent = per_card_spent;
      }))

-- `todo!()` panics.
unfoldable pub deserialize_limit_card_result : List ℕ → Result OperationResult
unfolding first
deserialize_limit_card_result payload = do
  b ← first payload
  if b == ok_byte
      then ok (OperationResult.limit_card LimitResult.ok)
      else if b == err_byte
      then panic
      else err invalid_protocol

unfoldable pub deserialize_limit_check_error : List ℕ → Result LimitCheckError
unfolding first
deserialize_limit_check_error payload = do
  guard (leb limit_check_err_len (length payload)) invalid_protocol
  b ← first payload
  if b == acc_limit_exceeded_code
      then ok LimitCheckError.account_limit_exceeded
      else if b == card_limit_exceeded_code
      then ok LimitCheckError.card_limit_exceeded
      else err invalid_protocol

unfoldable pub deserialize_limit_update_error : List ℕ → Result LimitUpdateError
unfolding first
deserialize_limit_update_error payload = do
  b ← first payload
  if b == below_current_usage_code
      then ok LimitUpdateError.below_current_usage
      else err invalid_protocol

unfoldable pub deserialize_verify_error : List ℕ → Result VerifyError
unfolding deserialize_limit_check_error deserialize_limit_update_error
deserialize_verify_error [] = panic
deserialize_verify_error (b ∷ payload) =
    if b == charge_limit_err
    then (do e ← deserialize_limit_check_error payload; ok (VerifyError.charge_limit e))
    else if b == limit_update_err
    then (do e ← deserialize_limit_update_error payload; ok (VerifyError.limit_update e))
    else err invalid_protocol

unfoldable pub deserialize_limit_account_result : List ℕ → Result OperationResult
unfolding deserialize_verify_error
deserialize_limit_account_result [] = panic
deserialize_limit_account_result (b ∷ payload) =
    if b == ok_byte
    then ok (OperationResult.limit_account LimitResult.ok)
    else if b == err_byte
    then (do
      e ← deserialize_verify_error payload
      ok (OperationResult.limit_account (LimitResult.failed e)))
    else err invalid_protocol

unfoldable pub deserialize_charge_result : List ℕ → Result OperationResult
unfolding deserialize_verify_error
deserialize_charge_result [] = panic
deserialize_charge_result (b ∷ payload) =
    if b == ok_byte
    then ok (OperationResult.charge ChargeResult.ok)
    else if b == err_byte
    then (do
      e ← deserialize_verify_error payload
      ok (OperationResult.charge (ChargeResult.failed e)))
    else err invalid_protocol

-- `TryFrom<&[u8]> for OperationResult`
unfoldable pub deserialize_operation_result : List ℕ → Result OperationResult
unfolding deserialize_charge_result deserialize_limit_account_result deserialize_limit_card_result
    deserialize_account_query_result
deserialize_operation_result [] = panic
deserialize_operation_result (b ∷ payload) =
    if b == charge_result_type
    then deserialize_charge_result payload
    else if b == limit_account_result
    then deserialize_limit_account_result payload
    else if b == limit_card_result
    then deserialize_limit_card_result payload
    else if b == acc_query_result
    then deserialize_account_query_result payload
    else err invalid_protocol
