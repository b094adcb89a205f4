-- ===== src/Wire/RoundTrip/Results.antt =====
-- Round trips of results: serialization/operation_result.rs and
-- deserialization/operation_result.rs.
use ypf_fleet_fuel_distribut.Prelude.{ℕ, ◌≡◌, refl, List, [], ◌∷◌, ◌++◌, All, length}
use ypf_fleet_fuel_distribut.Float.{F32}
use ypf_fleet_fuel_distribut.Domain.{
  VerifyError, LimitCheckError, LimitUpdateError, ChargeResult, LimitResult, AccountQueryResult,
  OperationResult,
}
use ypf_fleet_fuel_distribut.Wire.Result.{ok}
use ypf_fleet_fuel_distribut.Wire.Bytes.{from-to_be_bytes, slice_from}
use ypf_fleet_fuel_distribut.Wire.Serialize.{
  serialize_verify_error, serialize_card_spent, serialize_per_card_spent,
  serialize_account_query_result, serialize_operation_result,
}
use ypf_fleet_fuel_distribut.Wire.Deserialize.Results.{
  deserialize_verify_error, deserialize_card_spent, deserialize_per_card_spent,
  deserialize_account_query_result, deserialize_operation_result,
}
use ypf_fleet_fuel_distribut.Wire.RoundTrip.{IsWireSpent, IsWireResult, RoundTrips}

spent-read :
    (s : ℕ × F32) (rest : List ℕ)
    → IsWireSpent s
    → deserialize_card_spent (serialize_card_spent s ++ rest) ≡ ok s
unfolding deserialize_card_spent serialize_card_spent
spent-read (card_id, spent) rest h =
    λ i. ok (from-to_be_bytes 8 card_id h.0 i, from-to_be_bytes 4 spent h.1 i)

spent-skip :
    (s : ℕ × F32) (rest : List ℕ) → slice_from 12 (serialize_card_spent s ++ rest) ≡ ok rest
unfolding slice_from serialize_card_spent
spent-skip (card_id, spent) rest = refl

per_card_spent-read :
    (spent : List (ℕ × F32))
    → All IsWireSpent spent
    → deserialize_per_card_spent (length spent) (serialize_per_card_spent spent) ≡ ok spent
unfolding deserialize_per_card_spent serialize_per_card_spent
per_card_spent-read [] h = refl
per_card_spent-read (s ∷ spent) h = rw (
  spent-read s (serialize_per_card_spent spent) h.0,
  spent-skip s (serialize_per_card_spent spent),
  per_card_spent-read spent h.1,
)

query-read :
    (r : AccountQueryResult)
    → IsWireResult (OperationResult.account_query r)
    → deserialize_operation_result (serialize_account_query_result r)
      ≡ ok (OperationResult.account_query r)
unfolding deserialize_operation_result serialize_account_query_result
    deserialize_account_query_result
query-read r h = rw (
  from-to_be_bytes 8 r.account_id h.0,
  from-to_be_bytes 4 r.total_spent h.1,
  from-to_be_bytes 8 (length r.per_card_spent) h.2,
  per_card_spent-read r.per_card_spent h.3,
)

verify_error-read : (e : VerifyError) → deserialize_verify_error (serialize_verify_error e) ≡ ok e
unfolding deserialize_verify_error serialize_verify_error
verify_error-read (VerifyError.charge_limit LimitCheckError.card_limit_exceeded) = refl
verify_error-read (VerifyError.charge_limit LimitCheckError.account_limit_exceeded) = refl
verify_error-read (VerifyError.limit_update LimitUpdateError.below_current_usage) = refl

-- A result of a charge, of a change of an account's limit, of an accepted change of a card's limit or
-- of a query is read back as it was written, if its numbers have their machine widths.
pub result-RoundTrips :
    (r : OperationResult)
    → IsWireResult r
    → RoundTrips serialize_operation_result deserialize_operation_result r
unfolding serialize_operation_result deserialize_operation_result
result-RoundTrips (OperationResult.charge ChargeResult.ok) h = (_, refl, refl)
result-RoundTrips (OperationResult.charge (ChargeResult.failed e)) h =
    (_, refl, rw (verify_error-read e) refl)
result-RoundTrips (OperationResult.limit_account LimitResult.ok) h = (_, refl, refl)
result-RoundTrips (OperationResult.limit_account (LimitResult.failed e)) h =
    (_, refl, rw (verify_error-read e) refl)
result-RoundTrips (OperationResult.limit_card LimitResult.ok) h = (_, refl, refl)
result-RoundTrips (OperationResult.limit_card (LimitResult.failed e)) h = absurd h
result-RoundTrips (OperationResult.account_query r) h = (_, refl, query-read r h)
result-RoundTrips (OperationResult.database_snapshot db) h = absurd h
result-RoundTrips OperationResult.replace_database h = absurd h
