-- ===== src/Wire/RoundTrip/Losses.antt =====
-- Values that the protocol loses or changes: common/src/network/serials/.
use ypf_fleet_fuel_distribut.Wire.Bytes.{
  from_be_bytes, is_utf8, IsU64, to_be_bytes, from-to_be_bytes,
}
use ypf_fleet_fuel_distribut.Wire.Deserialize.{limit_of}
use ypf_fleet_fuel_distribut.Prelude.{true, ℕ, ◌≡◌, refl, none, some, [], ◌∷◌, arith}
use ypf_fleet_fuel_distribut.Float.{feq, minus_one}
use ypf_fleet_fuel_distribut.Wire.Result.{
  ◌>>=◌, Result, ok, err, panic, invalid_data, invalid_protocol,
}
use ypf_fleet_fuel_distribut.Domain.{
  NodeRole, VerifyError, LimitResult, DatabaseSnapshot, Operation, OperationResult, Message,
}
use ypf_fleet_fuel_distribut.Wire.Serialize.{serialize_operation_result}
use ypf_fleet_fuel_distribut.Wire.Serialize.Ops.{serialize_operation}
use ypf_fleet_fuel_distribut.Wire.Serialize.Messages.{serialize_message}
use ypf_fleet_fuel_distribut.Wire.Deserialize.Ops.{deserialize_operation}
use ypf_fleet_fuel_distribut.Wire.Deserialize.Results.{deserialize_operation_result}
use ypf_fleet_fuel_distribut.Wire.Deserialize.Messages.{deserialize_message}
use ypf_fleet_fuel_distribut.Wire.RoundTrip.{IsWireSnapshot}
use ypf_fleet_fuel_distribut.Wire.RoundTrip.Parts.{snapshot-RoundTrips}

-- A message with the result of an operation, written and read.
abbrev pub resent : OperationResult → Result OperationResult
resent r = serialize_operation_result r >>= deserialize_operation_result

-- A refused card limit, which is written, panics the reader; a snapshot, the answer to a
-- replacement and the answer to a role query are written and are refused by the reader.
pub unread_values :
    (e : VerifyError) (db : DatabaseSnapshot) (node_id : ℕ) (role : NodeRole)
    → IsWireSnapshot db
    → (resent (OperationResult.limit_card (LimitResult.failed e)) ≡ panic)
      × (resent (OperationResult.database_snapshot db) ≡ err invalid_protocol)
      × (resent OperationResult.replace_database ≡ err invalid_protocol)
      × ((serialize_message (Message.role_response node_id role) >>= deserialize_message)
          ≡ err invalid_data)
unfolding serialize_operation_result deserialize_operation_result serialize_message
    deserialize_message
unread_values e db node_id role h =
    let (bytes, write, _) = snapshot-RoundTrips db h in (refl, rw write refl, refl, refl)

minus_one_bytes : limit_of (from_be_bytes (to_be_bytes 4 minus_one)) ≡ none
unfolding feq
minus_one_bytes = rw (from-to_be_bytes 4 minus_one (omega arith)) refl

nul_is_utf8 : is_utf8 (0 ∷ []) ≡ true
unfolding is_utf8
nul_is_utf8 = refl

-- Operations whose reading differs from what was written: a new limit of -1.0 is read as none, an
-- empty billing period as none.
pub changed_operations :
    (account_id card_id : ℕ)
    → IsU64 account_id
    → IsU64 card_id
    → (serialize_operation (Operation.limit_account account_id (some minus_one))
          >>= deserialize_operation
        ≡ ok (Operation.limit_account account_id none))
      × (serialize_operation (Operation.limit_card account_id card_id (some minus_one))
            >>= deserialize_operation
          ≡ ok (Operation.limit_card account_id card_id none))
      × (serialize_operation (Operation.bill account_id (some [])) >>= deserialize_operation
          ≡ ok (Operation.bill account_id none))
unfolding serialize_operation deserialize_operation
changed_operations account_id card_id ha hc = (
  (λ i. ok (Operation.limit_account (from-to_be_bytes 8 account_id ha i) (minus_one_bytes i))),
  (λ i. ok (
      Operation.limit_card (from-to_be_bytes 8 account_id ha i) (from-to_be_bytes 8 card_id hc i)
        (minus_one_bytes i))),
  rw (from-to_be_bytes 8 account_id ha, nul_is_utf8) refl,
)
