-- ===== src/Wire/Serialize/Ops.antt =====
-- common/src/network/serials/serialization/operation.rs
use ypf_fleet_fuel_distribut.Wire.Result.{◌>>=◌, Result, ok}
use ypf_fleet_fuel_distribut.Prelude.{
  ℕ, ◌%◌, Bool, Option, none, some, List, [], ◌∷◌, ◌++◌, length, if◌then◌else◌,
}
use ypf_fleet_fuel_distribut.Float.{F32}
use ypf_fleet_fuel_distribut.Domain.{Operation}
use ypf_fleet_fuel_distribut.Wire.Bytes.{to_be_bytes}
use ypf_fleet_fuel_distribut.Wire.Protocol.{
  op_type_charge, op_type_limit_card, op_type_limit_account, op_type_query_account, op_type_bill,
  op_get_database, op_replace_database, true_byte, false_byte,
}
use ypf_fleet_fuel_distribut.Wire.Serialize.{
  serialize_socket_address, limit_bytes, serialize_database_snapshot,
}

unfoldable pub serialize_charge_operation : ℕ → ℕ → F32 → Bool → List ℕ
unfolding to_be_bytes
serialize_charge_operation account_id card_id amount from_offline_station =
    op_type_charge
    ∷ (to_be_bytes 8 account_id
        ++ (to_be_bytes 8 card_id
            ++ (to_be_bytes 4 amount
                ++ (if from_offline_station then true_byte else false_byte) ∷ [])))

unfoldable pub serialize_limit_account_operation : ℕ → Option F32 → List ℕ
unfolding to_be_bytes limit_bytes
serialize_limit_account_operation account_id new_limit =
    op_type_limit_account ∷ (to_be_bytes 8 account_id ++ limit_bytes new_limit)

unfoldable pub serialize_limit_card_operation : ℕ → ℕ → Option F32 → List ℕ
unfolding to_be_bytes limit_bytes
serialize_limit_card_operation account_id card_id new_limit =
    op_type_limit_card
    ∷ (to_be_bytes 8 account_id ++ (to_be_bytes 8 card_id ++ limit_bytes new_limit))

unfoldable pub serialize_query_account_operation : ℕ → List ℕ
unfolding to_be_bytes
serialize_query_account_operation account_id = op_type_query_account ∷ to_be_bytes 8 account_id

-- The length is one byte, `len() as u8`; 0 stands for no period.
unfoldable pub period_bytes : Option (List ℕ) → List ℕ
period_bytes none = 0 ∷ []
period_bytes (some period) = length period % 256 ∷ period

unfoldable pub serialize_bill_operation : ℕ → Option (List ℕ) → List ℕ
unfolding to_be_bytes period_bytes
serialize_bill_operation account_id period =
    op_type_bill ∷ (to_be_bytes 8 account_id ++ period_bytes period)

-- `From<Operation> for Vec<u8>`
unfoldable pub serialize_operation : Operation → Result (List ℕ)
unfolding serialize_charge_operation serialize_limit_account_operation
    serialize_limit_card_operation serialize_query_account_operation serialize_bill_operation
serialize_operation (Operation.charge account_id card_id amount from_offline_station) =
    ok (serialize_charge_operation account_id card_id amount from_offline_station)
serialize_operation (Operation.limit_account account_id new_limit) =
    ok (serialize_limit_account_operation account_id new_limit)
serialize_operation (Operation.limit_card account_id card_id new_limit) =
    ok (serialize_limit_card_operation account_id card_id new_limit)
serialize_operation (Operation.account_query account_id) =
    ok (serialize_query_account_operation account_id)
serialize_operation (Operation.bill account_id period) =
    ok (serialize_bill_operation account_id period)
serialize_operation (Operation.get_database addr) = do
  bytes ← serialize_socket_address addr
  ok (op_get_database ∷ bytes)
serialize_operation (Operation.replace_database snapshot) = do
  bytes ← serialize_database_snapshot snapshot
  ok (op_replace_database ∷ bytes)
