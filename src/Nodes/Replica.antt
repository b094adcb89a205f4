-- ===== src/Nodes/Replica.antt =====
-- server/src/node/replica.rs: requests, the log and results. `reaches addr` tells whether a send to `addr` succeeds, `now` is the
-- time in milliseconds. The coordinates and the start time, which no handler reads, are left out.
-- Numbers are those of a debug build: an overflow panics.
pub mod Members
pub mod Log
use ypf_fleet_fuel_distribut.Prelude.{
  ℕ, ◌+◌, ◌-◌, Bool, true, false, Option, none, some, List, [], ◌∷◌, ltb, leb, ◌==◌, if◌then◌else◌,
  HashMap, lookup, insert, erase,
}
use ypf_fleet_fuel_distribut.Domain.{SocketAddr, Operation, OperationResult, ChargeResult, Message}
use ypf_fleet_fuel_distribut.Nodes.Effects.{
  no_change, NodeEffect, send, execute, charge_result, Ending, returned, failed, panicked,
}
use ypf_fleet_fuel_distribut.Nodes.Leader.{Leader, max_u32}

pub record Replica : Type 0 where
  pub id : ℕ
  pub address : SocketAddr
  pub leader_addr : SocketAddr
  pub cluster : HashMap SocketAddr
  pub operations : HashMap Operation
  pub is_offline : Bool
  pub offline_queue : List Operation
  pub election_in_progress : Bool
  pub election_start : Option ℕ

-- `connection.send(..).await` as the last expression.
abbrev pub ends_by_sending :
    (SocketAddr → Bool) → Replica → Message → SocketAddr → Replica × List NodeEffect × Ending
ends_by_sending reaches r m addr =
    (r, send m addr ∷ [], if reaches addr then returned no_change else failed)

abbrev pub no_election : Replica → Replica
no_election r = record r { election_in_progress = false; election_start = none }

unfoldable pub handle_request :
    (SocketAddr → Bool) → Replica → ℕ → Operation → SocketAddr → Replica × List NodeEffect × Ending
handle_request reaches r req_id op addr =
    ends_by_sending reaches r (Message.request req_id op addr) r.leader_addr

-- The offline charges are sent to the leader until a send fails; what is left stays queued. The sends
-- are numbered, and `accepts k` tells whether the k-th succeeds.
unfoldable pub drain_queue :
    (accepts : ℕ → Bool) (k : ℕ) → Replica → List Operation → Replica × List NodeEffect × Ending
drain_queue accepts k r [] = (record r { offline_queue = [] }, [], returned no_change)
drain_queue accepts k r (op ∷ ops) =
    let request = send (Message.request 0 op r.address) r.leader_addr in
    let (r', requests, ending) = drain_queue accepts (k + 1) r ops in
    if accepts k
    then (r', request ∷ requests, ending)
    else (record r { offline_queue = ops }, request ∷ [], failed)

-- The ack of an operation follows the execution of the one before.
unfoldable pub handle_operation_result :
    (SocketAddr → Bool)
    → (accepts : ℕ → Bool) → Replica
    → ℕ
    → Operation
    → Replica × List NodeEffect × Ending
unfolding drain_queue
handle_operation_result reaches accepts r op_id (Operation.replace_database _) =
    drain_queue accepts 0 r r.offline_queue
handle_operation_result reaches accepts r op_id _ =
    if leb max_u32 op_id
    then (r, [], panicked)
    else ends_by_sending reaches r (Message.ack (op_id + 1)) r.leader_addr

-- What the station is told of a response.
unfoldable pub handle_response : ℕ → OperationResult → List NodeEffect
handle_response req_id (OperationResult.charge ChargeResult.ok) =
    if req_id == 0 then [] else charge_result req_id true none ∷ []
handle_response req_id (OperationResult.charge (ChargeResult.failed e)) =
    if req_id == 0 then [] else charge_result req_id false (some e) ∷ []
handle_response req_id _ = []

unfoldable pub commit_operation : Replica → ℕ → Replica × List NodeEffect
commit_operation r op_id = elim (lookup op_id r.operations) [
  | none ↦ (r, [])
  | some op ↦ (record r { operations = erase op_id r.operations }, execute op_id op ∷ [])
]

-- Stores the operation and commits the one before.
unfoldable pub handle_log :
    (SocketAddr → Bool) → Replica → ℕ → Operation → Replica × List NodeEffect × Ending
unfolding commit_operation
handle_log reaches r op_id new_op =
    let stored : Replica = record r { operations = insert op_id new_op r.operations } in
    let (committed, effects) = commit_operation stored (op_id - 1) in
    if op_id == 1
    then ends_by_sending reaches stored (Message.ack 1) r.leader_addr
    else if op_id == 0
    then (stored, [], panicked)
    else (committed, effects, returned no_change)

-- `handle_ack` is `todo!()`.
unfoldable pub handle_ack : Replica → ℕ → Replica × List NodeEffect × Ending
handle_ack r op_id = (r, [], panicked)

-- `operations.keys().max()`, or 1
abbrev pub highest : ℕ → HashMap Operation → ℕ
highest acc [] = acc
highest acc ((k, op) ∷ m) = highest (if ltb acc k then k else acc) m

abbrev pub highest_op_id : HashMap Operation → ℕ
highest_op_id [] = 1
highest_op_id ((k, op) ∷ m) = highest k m

-- `Replica::into_leader` with `Leader::from_existing`, which drops the operations.
unfoldable pub into_leader : Replica → Leader
into_leader r = record {
  id = r.id;
  current_op_id = highest_op_id r.operations;
  address = r.address;
  cluster = r.cluster;
  operations = [];
  is_offline = r.is_offline;
  offline_queue = r.offline_queue;
  election_in_progress = false;
  election_start = none;
}

-- `Leader::into_replica` with `Replica::from_existing`.
unfoldable pub into_replica : Leader → SocketAddr → Replica
into_replica l new_leader_addr = record {
  id = l.id;
  address = l.address;
  leader_addr = new_leader_addr;
  cluster = l.cluster;
  operations = [];
  is_offline = l.is_offline;
  offline_queue = l.offline_queue;
  election_in_progress = false;
  election_start = none;
}
