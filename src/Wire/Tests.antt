-- ===== src/Wire/Tests.antt =====
-- Messages and their parts, written and read: common/src/network/serials/.
use ypf_fleet_fuel_distribut.Prelude.{ℕ, ◌≡◌, refl, true, none, some, List, [], ◌∷◌, arith}
use ypf_fleet_fuel_distribut.Float.{minus_one}
use ypf_fleet_fuel_distribut.Domain.{
  SocketAddr, DatabaseSnapshot, Operation, OperationResult, LimitResult, LimitUpdateError,
  VerifyError, NodeRole, Message,
}
use ypf_fleet_fuel_distribut.Wire.Result.{ok, err, panic, invalid_data, invalid_protocol, ◌>>=◌}
use ypf_fleet_fuel_distribut.Wire.Bytes.{is_utf8}
use ypf_fleet_fuel_distribut.Wire.Serialize.Ops.{serialize_operation}
use ypf_fleet_fuel_distribut.Wire.Serialize.Messages.{serialize_message}
use ypf_fleet_fuel_distribut.Wire.Deserialize.Ops.{deserialize_operation}
use ypf_fleet_fuel_distribut.Wire.Deserialize.Messages.{deserialize_message}
use ypf_fleet_fuel_distribut.Wire.RoundTrip.{IsWireSnapshot, RoundTrips}
use ypf_fleet_fuel_distribut.Wire.RoundTrip.Messages.{message-RoundTrips}
use ypf_fleet_fuel_distribut.Wire.RoundTrip.Losses.{resent, unread_values, changed_operations}

abbrev leader : SocketAddr
leader = SocketAddr.v4 127 0 0 1 9000

-- An account with a limit of 100.0 and one without, and a card.
abbrev database : DatabaseSnapshot
database = record {
  addr = leader;
  accounts =
      record { account_id = 7; limit = some 0x42C80000; consumed = 0x41A00000 }
      ∷ record { account_id = 8; limit = none; consumed = 0 }
      ∷ [];
  cards = record { account_id = 7; card_id = 1; limit = none; consumed = 0x41A00000 } ∷ [];
}

abbrev database-IsWireSnapshot : IsWireSnapshot database
database-IsWireSnapshot = record {
  addr = omega arith;
  accounts = (
    (omega arith, (omega arith, omega arith), omega arith),
    ((omega arith, tt, omega arith), tt),
  );
  accounts_len = omega arith;
  cards = ((omega arith, omega arith, tt, omega arith), tt);
  cards_len = omega arith;
}

-- "2025"
abbrev period : List ℕ
period = 0x32 ∷ 0x30 ∷ 0x32 ∷ 0x35 ∷ []

period-is_utf8 : is_utf8 period ≡ true
unfolding is_utf8
period-is_utf8 = refl

abbrev query_result : OperationResult
query_result = OperationResult.account_query (record {
  account_id = 7;
  total_spent = 0x428C0000;
  per_card_spent = (1, 0x41A00000) ∷ (2, 0x42480000) ∷ [];
})

abbrev view : Message
view = Message.cluster_view ((1, leader) ∷ (2, SocketAddr.v4 127 0 0 1 9001) ∷ []) leader database

message-RoundTrips_example : RoundTrips serialize_message deserialize_message view
message-RoundTrips_example = message-RoundTrips view (
  ((omega arith, omega arith), ((omega arith, omega arith), tt)),
  omega arith,
  omega arith,
  database-IsWireSnapshot,
)

abbrev refusal : VerifyError
refusal = VerifyError.limit_update LimitUpdateError.below_current_usage

unread_values_example :
    (resent (OperationResult.limit_card (LimitResult.failed refusal)) ≡ panic)
    × (resent (OperationResult.database_snapshot database) ≡ err invalid_protocol)
    × (resent OperationResult.replace_database ≡ err invalid_protocol)
    × ((serialize_message (Message.role_response 3 NodeRole.leader) >>= deserialize_message)
        ≡ err invalid_data)
unread_values_example = unread_values refusal database 3 NodeRole.leader database-IsWireSnapshot

changed_operations_example :
    (serialize_operation (Operation.limit_account 7 (some minus_one)) >>= deserialize_operation
      ≡ ok (Operation.limit_account 7 none))
    × (serialize_operation (Operation.limit_card 7 1 (some minus_one)) >>= deserialize_operation
        ≡ ok (Operation.limit_card 7 1 none))
    × (serialize_operation (Operation.bill 7 (some [])) >>= deserialize_operation
        ≡ ok (Operation.bill 7 none))
changed_operations_example = changed_operations 7 1 (omega arith) (omega arith)
