-- ===== src/Wire/RoundTrip.antt =====
-- Values for which common/src/network/serials/ is to have round trips.
pub mod Parts
pub mod Ops
pub mod Results
pub mod Members
pub mod Messages
pub mod Losses
use ypf_fleet_fuel_distribut.Prelude.{
  ◌^◌, ◌*◌, ℕ, ◌<◌, ◌≡◌, ◌≢◌, true, Option, none, some, List, length, All,
}
use ypf_fleet_fuel_distribut.Float.{F32, IsF32, minus_one}
use ypf_fleet_fuel_distribut.Domain.{
  SocketAddr, AccountSnapshot, CardSnapshot, DatabaseSnapshot, Operation, LimitResult,
  OperationResult, Message,
}
use ypf_fleet_fuel_distribut.Wire.Protocol.{member_srl_len}
use ypf_fleet_fuel_distribut.Wire.Result.{Result, ok}
use ypf_fleet_fuel_distribut.Wire.Bytes.{IsU16, IsU32, IsU64, is_utf8}

-- An IPv4 address.
abbrev pub IsWireAddr : SocketAddr → Type 0
IsWireAddr (SocketAddr.v4 a b c d port) = IsU16 port
IsWireAddr (SocketAddr.v6 ip port) = ⊥

-- A limit that is not -1.0, which stands for no limit.
abbrev pub IsWireLimit : Option F32 → Type 0
IsWireLimit none = Unit
IsWireLimit (some limit) = IsF32 limit × (limit ≢ minus_one)

abbrev pub IsWireAccount : AccountSnapshot → Type 0
IsWireAccount a = IsU64 a.account_id × IsWireLimit a.limit × IsF32 a.consumed

abbrev pub IsWireCard : CardSnapshot → Type 0
IsWireCard c = IsU64 c.account_id × IsU64 c.card_id × IsWireLimit c.limit × IsF32 c.consumed

pub record IsWireSnapshot (db : DatabaseSnapshot) : Type 0 where
  pub addr : IsWireAddr db.addr
  pub accounts : All IsWireAccount db.accounts
  pub accounts_len : IsU64 (length db.accounts)
  pub cards : All IsWireCard db.cards
  pub cards_len : IsU64 (length db.cards)

-- A period of 1 to 127 bytes, or none.
abbrev pub IsWirePeriod : Option (List ℕ) → Type 0
IsWirePeriod none = Unit
IsWirePeriod (some p) = (is_utf8 p ≡ true) × (0 < length p) × (length p < 128)

abbrev pub IsWireOp : Operation → Type 0
IsWireOp (Operation.charge account_id card_id amount _) =
    IsU64 account_id × IsU64 card_id × IsF32 amount
IsWireOp (Operation.limit_account account_id new_limit) = IsU64 account_id × IsWireLimit new_limit
IsWireOp (Operation.limit_card account_id card_id new_limit) =
    IsU64 account_id × IsU64 card_id × IsWireLimit new_limit
IsWireOp (Operation.account_query account_id) = IsU64 account_id
IsWireOp (Operation.bill account_id period) = IsU64 account_id × IsWirePeriod period
IsWireOp (Operation.get_database addr) = IsWireAddr addr
IsWireOp (Operation.replace_database snapshot) = IsWireSnapshot snapshot

abbrev pub IsWireSpent : ℕ × F32 → Type 0
IsWireSpent (card_id, spent) = IsU64 card_id × IsF32 spent

-- The results that `TryFrom<&[u8]> for OperationResult` reads: not a refused card limit, a
-- database snapshot or the answer to a replacement.
abbrev pub IsWireResult : OperationResult → Type 0
IsWireResult (OperationResult.charge _) = Unit
IsWireResult (OperationResult.limit_account _) = Unit
IsWireResult (OperationResult.limit_card LimitResult.ok) = Unit
IsWireResult (OperationResult.limit_card (LimitResult.failed _)) = ⊥
IsWireResult (OperationResult.account_query r) =
    IsU64 r.account_id
    × IsF32 r.total_spent
    × IsU64 (length r.per_card_spent)
    × All IsWireSpent r.per_card_spent
IsWireResult (OperationResult.database_snapshot _) = ⊥
IsWireResult OperationResult.replace_database = ⊥

abbrev pub IsWireMember : ℕ × SocketAddr → Type 0
IsWireMember (id, addr) = IsU64 id × IsWireAddr addr

-- The messages that `TryFrom<Vec<u8>> for Message` reads: all but a role's answer.
abbrev pub IsWireMessage : Message → Type 0
IsWireMessage (Message.request req_id op addr) = IsU32 req_id × IsWireOp op × IsWireAddr addr
IsWireMessage (Message.log op_id op) = IsU32 op_id × IsWireOp op
IsWireMessage (Message.ack op_id) = IsU32 op_id
IsWireMessage (Message.join addr) = IsWireAddr addr
IsWireMessage (Message.cluster_view members leader_addr database) =
    All IsWireMember members
    × (member_srl_len * length members < 2 ^ 64)
    × IsWireAddr leader_addr
    × IsWireSnapshot database
IsWireMessage (Message.cluster_update new_member) = IsWireMember new_member
IsWireMessage (Message.response req_id op_result) = IsU32 req_id × IsWireResult op_result
IsWireMessage (Message.role_query addr) = IsWireAddr addr
IsWireMessage (Message.role_response _ _) = ⊥
IsWireMessage (Message.coordinator leader_id leader_addr) = IsU64 leader_id × IsWireAddr leader_addr
IsWireMessage (Message.election candidate_id candidate_addr) =
    IsU64 candidate_id × IsWireAddr candidate_addr
IsWireMessage (Message.election_ok responder_id) = IsU64 responder_id

-- `x` is written as bytes that are read as `x`.
abbrev pub RoundTrips {ℓ} : {A : Type ℓ} → (A → Result (List ℕ)) → (List ℕ → Result A) → A → Type ℓ
RoundTrips write read x = (bytes : List ℕ) × (write x ≡ ok bytes) × (read bytes ≡ ok x)
