-- ===== src/Domain.antt =====
-- The data that the parts exchange: common/src/operation.rs, operation_result.rs, errors.rs,
-- node_role.rs and network/message.rs. A `u32`, `u64` or `usize` is a number; a Rust `String` is
-- the list of its UTF-8 bytes.
use ypf_fleet_fuel_distribut.Prelude.{ℕ, Bool, Option, List}
use ypf_fleet_fuel_distribut.Float.{F32}

-- An IPv4 address is four bytes; an IPv6 address is one number. Then the port.
pub data SocketAddr : Type 0 where
  v4 : (a b c d port : ℕ) → SocketAddr
  v6 : (ip port : ℕ) → SocketAddr

pub data LimitCheckError : Type 0 where
  card_limit_exceeded account_limit_exceeded : LimitCheckError

pub data LimitUpdateError : Type 0 where
  below_current_usage : LimitUpdateError

pub data VerifyError : Type 0 where
  charge_limit : LimitCheckError → VerifyError
  limit_update : LimitUpdateError → VerifyError

pub record AccountSnapshot : Type 0 where
  pub account_id : ℕ
  pub limit : Option F32
  pub consumed : F32

pub record CardSnapshot : Type 0 where
  pub account_id : ℕ
  pub card_id : ℕ
  pub limit : Option F32
  pub consumed : F32

pub record DatabaseSnapshot : Type 0 where
  pub addr : SocketAddr
  pub accounts : List AccountSnapshot
  pub cards : List CardSnapshot

pub data Operation : Type 0 where
  charge : (account_id card_id : ℕ) (amount : F32) (from_offline_station : Bool) → Operation
  limit_account : (account_id : ℕ) (new_limit : Option F32) → Operation
  limit_card : (account_id card_id : ℕ) (new_limit : Option F32) → Operation
  account_query : (account_id : ℕ) → Operation
  bill : (account_id : ℕ) (period : Option (List ℕ)) → Operation
  get_database : (addr : SocketAddr) → Operation
  replace_database : (snapshot : DatabaseSnapshot) → Operation

pub data ChargeResult : Type 0 where
  ok : ChargeResult
  failed : VerifyError → ChargeResult

pub data LimitResult : Type 0 where
  ok : LimitResult
  failed : VerifyError → LimitResult

pub record AccountQueryResult : Type 0 where
  pub account_id : ℕ
  pub total_spent : F32
  pub per_card_spent : List (ℕ × F32)

pub data OperationResult : Type 0 where
  charge : ChargeResult → OperationResult
  limit_account : LimitResult → OperationResult
  limit_card : LimitResult → OperationResult
  account_query : AccountQueryResult → OperationResult
  database_snapshot : DatabaseSnapshot → OperationResult
  replace_database : OperationResult

pub data NodeRole : Type 0 where
  leader replica station : NodeRole

pub data Message : Type 0 where
  request : (req_id : ℕ) (op : Operation) (addr : SocketAddr) → Message
  response : (req_id : ℕ) (op_result : OperationResult) → Message
  log : (op_id : ℕ) (op : Operation) → Message
  ack : (op_id : ℕ) → Message
  election : (candidate_id : ℕ) (candidate_addr : SocketAddr) → Message
  election_ok : (responder_id : ℕ) → Message
  coordinator : (leader_id : ℕ) (leader_addr : SocketAddr) → Message
  join : (addr : SocketAddr) → Message
  cluster_view :
      (members : List (ℕ × SocketAddr)) (leader_addr : SocketAddr) (database : DatabaseSnapshot)
      → Message
  cluster_update : (new_member : ℕ × SocketAddr) → Message
  role_query : (addr : SocketAddr) → Message
  role_response : (node_id : ℕ) (role : NodeRole) → Message
