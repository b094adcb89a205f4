-- ===== src/Wire/RoundTrip/Ops.antt =====
-- Round trips of operations: serialization/operation.rs and deserialization/operation.rs.
use ypf_fleet_fuel_distribut.Wire.RoundTrip.Parts.{
  address-read_end, limit_back, address_bytes, address-write, snapshot-RoundTrips,
}
use ypf_fleet_fuel_distribut.Prelude.{
  leb, ◌%◌, ℕ, ◌≡◌, refl, ap, Bool, true, false, Option, none, some, List, [], ◌∷◌, ◌++◌, arith,
  length,
}
use ypf_fleet_fuel_distribut.Wire.Bytes.{
  is_utf8, to_be_bytes, from-to_be_bytes, IsU64, is_utf8-ascii, is_utf8-boundary,
}
use ypf_fleet_fuel_distribut.Float.{F32}
use ypf_fleet_fuel_distribut.Wire.Protocol.{op_get_database, op_replace_database, acc_id_srl_len}
use ypf_fleet_fuel_distribut.Domain.{Operation}
use ypf_fleet_fuel_distribut.Wire.Result.{ok}
use ypf_fleet_fuel_distribut.Wire.Serialize.Ops.{
  serialize_operation, serialize_charge_operation, serialize_bill_operation, period_bytes,
}
use ypf_fleet_fuel_distribut.Wire.Deserialize.Ops.{deserialize_operation, deserialize_period}
use ypf_fleet_fuel_distribut.Wire.RoundTrip.{IsWireOp, IsWirePeriod, RoundTrips}

charge-read :
    (account_id card_id : ℕ) (amount : F32) (from_offline_station : Bool)
    → IsWireOp (Operation.charge account_id card_id amount from_offline_station)
    → deserialize_operation
        (serialize_charge_operation account_id card_id amount from_offline_station)
      ≡ ok (Operation.charge account_id card_id amount from_offline_station)
unfolding deserialize_operation serialize_charge_operation
charge-read account_id card_id amount true h = λ i. ok (
    Operation.charge (from-to_be_bytes 8 account_id h.0 i) (from-to_be_bytes 8 card_id h.1 i)
      (from-to_be_bytes 4 amount h.2 i) true)
charge-read account_id card_id amount false h = λ i. ok (
    Operation.charge (from-to_be_bytes 8 account_id h.0 i) (from-to_be_bytes 8 card_id h.1 i)
      (from-to_be_bytes 4 amount h.2 i) false)

nul_is_utf8 : is_utf8 (0 ∷ []) ≡ true
unfolding is_utf8
nul_is_utf8 = refl

period-read : (p : Option (List ℕ)) → IsWirePeriod p → deserialize_period (period_bytes p) ≡ ok p
unfolding deserialize_period period_bytes
period-read none h = rw nul_is_utf8 refl
period-read (some []) h = absurd (omega (arith, h.1))
period-read (some (c ∷ p)) h =
    let n = length (c ∷ p) % 256 in
    rw (is_utf8-ascii n (c ∷ p) (omega (arith, h.2)), h.0, is_utf8-boundary n c p h.0) refl

bill_long_enough :
    (account_id : ℕ) (bytes : List ℕ)
    → leb acc_id_srl_len (length (to_be_bytes 8 account_id ++ bytes)) ≡ true
unfolding to_be_bytes
bill_long_enough account_id bytes = ground arith

bill-read :
    (account_id : ℕ) (period : Option (List ℕ))
    → IsU64 account_id
    → IsWirePeriod period
    → deserialize_operation (serialize_bill_operation account_id period)
      ≡ ok (Operation.bill account_id period)
unfolding deserialize_operation serialize_bill_operation
bill-read account_id period h p =
    rw
      (
        from-to_be_bytes 8 account_id h,
        period-read period p,
        bill_long_enough account_id (period_bytes period),
      )
      refl

-- An operation is read back as it was written, if its numbers have their machine widths, a new limit
-- is not -1.0, a billing period is UTF-8 of 1 to 127 bytes, and the addresses and limits of a snapshot
-- or a join are such, too.
pub op-RoundTrips :
    (op : Operation) → IsWireOp op → RoundTrips serialize_operation deserialize_operation op
unfolding serialize_operation deserialize_operation
op-RoundTrips (Operation.charge account_id card_id amount from_offline_station) h =
    (_, refl, charge-read account_id card_id amount from_offline_station h)
op-RoundTrips (Operation.limit_account account_id new_limit) h = (
  _,
  refl,
  λ i.
      ok (
        Operation.limit_account (from-to_be_bytes 8 account_id h.0 i) (limit_back new_limit h.1 i)),
)
op-RoundTrips (Operation.limit_card account_id card_id new_limit) h = (
  _,
  refl,
  λ i. ok (
      Operation.limit_card (from-to_be_bytes 8 account_id h.0 i) (from-to_be_bytes 8 card_id h.1 i)
        (limit_back new_limit h.2 i)),
)
op-RoundTrips (Operation.account_query account_id) h =
    (_, refl, ap (λ n. ok (Operation.account_query n)) (from-to_be_bytes 8 account_id h))
op-RoundTrips (Operation.bill account_id period) h = (_, refl, bill-read account_id period h.0 h.1)
op-RoundTrips (Operation.get_database addr) h = (
  op_get_database ∷ address_bytes addr,
  rw (address-write addr h) refl,
  rw (address-read_end addr h) refl,
)
op-RoundTrips (Operation.replace_database snapshot) h =
    let (bytes, write, read) = snapshot-RoundTrips snapshot h in
    (op_replace_database ∷ bytes, rw write refl, rw read refl)
