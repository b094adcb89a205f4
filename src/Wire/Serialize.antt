-- ===== src/Wire/Serialize.antt =====
-- common/src/network/serials/serialization/: helpers.rs, verify_error.rs, operation_result.rs and
-- database_snapshot.rs; the children are operation.rs and message.rs. A list is the `Vec<u8>`.
pub mod Ops
pub mod Messages
use ypf_fleet_fuel_distribut.Wire.Result.{◌>>=◌, ◌>>◌, Result, ok, panic}
use ypf_fleet_fuel_distribut.Prelude.{ℕ, Option, none, some, List, [], ◌∷◌, ◌++◌, length}
use ypf_fleet_fuel_distribut.Float.{F32}
use ypf_fleet_fuel_distribut.Domain.{
  SocketAddr, VerifyError, LimitCheckError, LimitUpdateError, ChargeResult, LimitResult,
  AccountQueryResult, OperationResult, AccountSnapshot, CardSnapshot, DatabaseSnapshot,
}
use ypf_fleet_fuel_distribut.Wire.Bytes.{to_be_bytes}
use ypf_fleet_fuel_distribut.Wire.Protocol.{
  no_limit, limit_update_err, charge_limit_err, below_current_usage_code, card_limit_exceeded_code,
  acc_limit_exceeded_code, charge_result_type, limit_account_result, limit_card_result,
  acc_query_result, database_snapshot_type, replace_database_type, ok_byte, err_byte,
}

-- Panics on an IPv6 address.
unfoldable pub serialize_socket_address : SocketAddr → Result (List ℕ)
unfolding to_be_bytes
serialize_socket_address (SocketAddr.v4 a b c d port) = ok (a ∷ b ∷ c ∷ d ∷ to_be_bytes 2 port)
serialize_socket_address (SocketAddr.v6 ip port) = panic

-- `limit.unwrap_or(NO_LIMIT).to_be_bytes()`
abbrev pub limit_or : Option F32 → F32
limit_or none = no_limit
limit_or (some limit) = limit

unfoldable pub limit_bytes : Option F32 → List ℕ
unfolding to_be_bytes
limit_bytes limit = to_be_bytes 4 (limit_or limit)

unfoldable pub serialize_limit_update_error : LimitUpdateError → List ℕ
serialize_limit_update_error LimitUpdateError.below_current_usage =
    limit_update_err ∷ below_current_usage_code ∷ []

unfoldable pub serialize_charge_limit_error : LimitCheckError → List ℕ
serialize_charge_limit_error LimitCheckError.card_limit_exceeded =
    charge_limit_err ∷ card_limit_exceeded_code ∷ []
serialize_charge_limit_error LimitCheckError.account_limit_exceeded =
    charge_limit_err ∷ acc_limit_exceeded_code ∷ []

-- `From<VerifyError> for Vec<u8>`
unfoldable pub serialize_verify_error : VerifyError → List ℕ
unfolding serialize_limit_update_error serialize_charge_limit_error
serialize_verify_error (VerifyError.charge_limit e) = serialize_charge_limit_error e
serialize_verify_error (VerifyError.limit_update e) = serialize_limit_update_error e

-- `From<AccountSnapshot> for Vec<u8>` and `From<CardSnapshot> for Vec<u8>`
unfoldable pub serialize_account_snapshot : AccountSnapshot → List ℕ
unfolding to_be_bytes limit_bytes
serialize_account_snapshot a =
    to_be_bytes 8 a.account_id ++ (limit_bytes a.limit ++ to_be_bytes 4 a.consumed)

unfoldable pub serialize_card_snapshot : CardSnapshot → List ℕ
unfolding to_be_bytes limit_bytes
serialize_card_snapshot c =
    to_be_bytes 8 c.account_id
    ++ (to_be_bytes 8 c.card_id ++ (limit_bytes c.limit ++ to_be_bytes 4 c.consumed))

unfoldable pub serialize_accounts : List AccountSnapshot → List ℕ
serialize_accounts [] = []
serialize_accounts (a ∷ accounts) = serialize_account_snapshot a ++ serialize_accounts accounts

unfoldable pub serialize_cards : List CardSnapshot → List ℕ
serialize_cards [] = []
serialize_cards (c ∷ cards) = serialize_card_snapshot c ++ serialize_cards cards

-- `From<DatabaseSnapshot> for Vec<u8>`
unfoldable pub serialize_database_snapshot : DatabaseSnapshot → Result (List ℕ)
serialize_database_snapshot db = do
  addr ← serialize_socket_address db.addr
  ok (
      addr
      ++ (to_be_bytes 8 (length db.accounts)
          ++ (serialize_accounts db.accounts
              ++ (to_be_bytes 8 (length db.cards) ++ serialize_cards db.cards))))

unfoldable pub serialize_card_spent : ℕ × F32 → List ℕ
unfolding to_be_bytes
serialize_card_spent (card_id, spent) = to_be_bytes 8 card_id ++ to_be_bytes 4 spent

unfoldable pub serialize_per_card_spent : List (ℕ × F32) → List ℕ
serialize_per_card_spent [] = []
serialize_per_card_spent (s ∷ spent) = serialize_card_spent s ++ serialize_per_card_spent spent

unfoldable pub serialize_account_query_result : AccountQueryResult → List ℕ
unfolding to_be_bytes
serialize_account_query_result r =
    acc_query_result
    ∷ (to_be_bytes 8 r.account_id
        ++ (to_be_bytes 4 r.total_spent
            ++ (to_be_bytes 8 (length r.per_card_spent)
                ++ serialize_per_card_spent r.per_card_spent)))

unfoldable pub serialize_limit_result : LimitResult → List ℕ
unfolding serialize_verify_error
serialize_limit_result LimitResult.ok = ok_byte ∷ []
serialize_limit_result (LimitResult.failed e) = err_byte ∷ serialize_verify_error e

unfoldable pub serialize_charge_result : ChargeResult → List ℕ
unfolding serialize_verify_error
serialize_charge_result ChargeResult.ok = charge_result_type ∷ ok_byte ∷ []
serialize_charge_result (ChargeResult.failed e) =
    charge_result_type ∷ err_byte ∷ serialize_verify_error e

-- `From<OperationResult> for Vec<u8>`
unfoldable pub serialize_operation_result : OperationResult → Result (List ℕ)
unfolding serialize_charge_result serialize_limit_result serialize_account_query_result
serialize_operation_result (OperationResult.charge r) = ok (serialize_charge_result r)
serialize_operation_result (OperationResult.limit_account r) =
    ok (limit_account_result ∷ serialize_limit_result r)
serialize_operation_result (OperationResult.limit_card r) =
    ok (limit_card_result ∷ serialize_limit_result r)
serialize_operation_result (OperationResult.account_query r) = ok (serialize_account_query_result r)
serialize_operation_result (OperationResult.database_snapshot db) = do
  bytes ← serialize_database_snapshot db
  ok (database_snapshot_type ∷ bytes)
serialize_operation_result OperationResult.replace_database = ok (replace_database_type ∷ [])
