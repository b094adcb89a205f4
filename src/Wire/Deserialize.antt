-- ===== src/Wire/Deserialize.antt =====
-- common/src/network/serials/deserialization/: helpers.rs and database_snapshot.rs; the children
-- are operation.rs, operation_result.rs and message.rs. The running index `ptr` is written out.
pub mod Ops
pub mod Results
pub mod Messages
use ypf_fleet_fuel_distribut.Wire.Result.{◌>>=◌, ◌>>◌, Result, ok, err, invalid_protocol}
use ypf_fleet_fuel_distribut.Prelude.{
  ℕ, zero, suc, ◌+◌, Option, none, some, List, [], ◌∷◌, if◌then◌else◌,
}
use ypf_fleet_fuel_distribut.Float.{F32, feq}
use ypf_fleet_fuel_distribut.Domain.{SocketAddr, AccountSnapshot, CardSnapshot, DatabaseSnapshot}
use ypf_fleet_fuel_distribut.Wire.Bytes.{from_be_bytes, slice_from, slice_to}
use ypf_fleet_fuel_distribut.Wire.Protocol.{
  no_limit, acc_id_srl_len, card_id_srl_len, amount_srl_len, vec_len_len, socket_addr_len,
  acc_snapshot_srl_len, card_snapshot_srl_len,
}

-- The number in the first `n` bytes: `from_be_bytes(payload[0..n].try_into()..)`, where the
-- conversion of a slice of this length cannot fail.
unfoldable pub read_be : ℕ → List ℕ → Result ℕ
unfolding slice_to
read_be n payload = do bytes ← slice_to n payload; ok (from_be_bytes bytes)

unfoldable pub deserialize_vec_len : List ℕ → Result ℕ
unfolding read_be
deserialize_vec_len payload = read_be vec_len_len payload

unfoldable pub deserialize_account_id : List ℕ → Result ℕ
unfolding read_be
deserialize_account_id payload = read_be acc_id_srl_len payload

unfoldable pub deserialize_card_id : List ℕ → Result ℕ
unfolding read_be
deserialize_card_id payload = read_be card_id_srl_len payload

unfoldable pub deserialize_amount : List ℕ → Result F32
unfolding read_be
deserialize_amount payload = read_be amount_srl_len payload

abbrev pub limit_of : F32 → Option F32
limit_of limit = if feq limit no_limit then none else some limit

unfoldable pub deserialize_limit : List ℕ → Result (Option F32)
unfolding deserialize_amount
deserialize_limit payload = do limit ← deserialize_amount payload; ok (limit_of limit)

unfoldable pub deserialize_socket_address_srl : List ℕ → Result SocketAddr
deserialize_socket_address_srl (a ∷ b ∷ c ∷ d ∷ p ∷ q ∷ rest) =
    ok (SocketAddr.v4 a b c d (from_be_bytes (p ∷ q ∷ [])))
deserialize_socket_address_srl _ = err invalid_protocol

-- `TryFrom<&[u8]> for AccountSnapshot` and `for CardSnapshot`
unfoldable pub deserialize_account_snapshot : List ℕ → Result AccountSnapshot
unfolding deserialize_account_id deserialize_limit deserialize_amount slice_from
deserialize_account_snapshot payload = do
  account_id ← deserialize_account_id payload
  limit ← deserialize_limit (← slice_from acc_id_srl_len payload)
  consumed ← deserialize_amount (← slice_from (acc_id_srl_len + amount_srl_len) payload)
  ok (record { account_id = account_id; limit = limit; consumed = consumed })

unfoldable pub deserialize_card_snapshot : List ℕ → Result CardSnapshot
unfolding deserialize_account_id deserialize_card_id deserialize_limit deserialize_amount slice_from
deserialize_card_snapshot payload = do
  account_id ← deserialize_account_id payload
  card_id ← deserialize_card_id (← slice_from acc_id_srl_len payload)
  limit ← deserialize_limit (← slice_from (acc_id_srl_len + card_id_srl_len) payload)
  consumed ←
      deserialize_amount (← slice_from (acc_id_srl_len + card_id_srl_len + amount_srl_len) payload)
  ok (record { account_id = account_id; card_id = card_id; limit = limit; consumed = consumed })

-- The loops over the fragments, with what follows them.
unfoldable pub deserialize_accounts : ℕ → List ℕ → Result (List AccountSnapshot × List ℕ)
unfolding slice_from
deserialize_accounts zero payload = ok ([], payload)
deserialize_accounts (suc n) payload = do
  account ← deserialize_account_snapshot payload
  (accounts, rest) ← deserialize_accounts n (← slice_from acc_snapshot_srl_len payload)
  ok (account ∷ accounts, rest)

unfoldable pub deserialize_cards : ℕ → List ℕ → Result (List CardSnapshot × List ℕ)
unfolding slice_from
deserialize_cards zero payload = ok ([], payload)
deserialize_cards (suc n) payload = do
  card ← deserialize_card_snapshot payload
  (cards, rest) ← deserialize_cards n (← slice_from card_snapshot_srl_len payload)
  ok (card ∷ cards, rest)

-- `TryFrom<Vec<u8>> for DatabaseSnapshot`
unfoldable pub deserialize_database_snapshot : List ℕ → Result DatabaseSnapshot
deserialize_database_snapshot payload = do
  addr ← deserialize_socket_address_srl payload
  at_accounts ← slice_from socket_addr_len payload
  accounts_len ← deserialize_vec_len at_accounts
  (accounts, at_cards) ← deserialize_accounts accounts_len (← slice_from vec_len_len at_accounts)
  cards_len ← deserialize_vec_len at_cards
  (cards, _) ← deserialize_cards cards_len (← slice_from vec_len_len at_cards)
  ok (record { addr = addr; accounts = accounts; cards = cards })
