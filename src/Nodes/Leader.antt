-- ===== src/Nodes/Leader.antt =====
-- server/src/node/leader.rs: requests, acks and results. `reaches addr` tells whether a send to `addr` succeeds, `now` is the
-- time in milliseconds. The coordinates, which no handler reads, are left out. Numbers are those of
-- a debug build: an overflow panics.
pub mod Members
pub mod Acks
pub mod Requests
pub mod Elections
mod Tests
use ypf_fleet_fuel_distribut.Prelude.{
  ℕ, ◌+◌, ◌-◌, ◌/◌, ◌^◌, Bool, true, false, not, Option, none, some, List, [], ◌∷◌, length, leb,
  ◌==◌, if◌then◌else◌, HashMap, lookup, insert, erase,
}
use ypf_fleet_fuel_distribut.Domain.{SocketAddr, Operation, OperationResult, ChargeResult, Message}
use ypf_fleet_fuel_distribut.Nodes.Effects.{
  PendingOperation, new_pending, no_change, NodeEffect, send, execute, charge_result, Ending,
  returned, failed, panicked, same_addr, send_all,
}

pub record Leader : Type 0 where
  pub id : ℕ
  pub current_op_id : ℕ
  pub address : SocketAddr
  pub cluster : HashMap SocketAddr
  pub operations : HashMap PendingOperation
  pub is_offline : Bool
  pub offline_queue : List Operation
  pub election_in_progress : Bool
  pub election_start : Option ℕ

-- The addresses of the members but the leader itself, in the order of the map.
unfoldable pub peers_of : ℕ → HashMap SocketAddr → List SocketAddr
peers_of id [] = []
peers_of id ((node_id, addr) ∷ members) =
    if node_id == id then peers_of id members else addr ∷ peers_of id members

abbrev pub max_u32 : ℕ
max_u32 = 2 ^ 32 - 1

abbrev pub max_usize : ℕ
max_usize = 2 ^ 64 - 1

unfoldable pub handle_request :
    (SocketAddr → Bool) → Leader → ℕ → Operation → SocketAddr → Leader × List NodeEffect × Ending
unfolding new_pending send_all peers_of
handle_request reaches l req_id op client_addr =
    let stored : Leader = record l {
      operations = insert l.current_op_id (new_pending op client_addr req_id) l.operations;
    } in
    if length l.cluster == 1
    then (stored, execute l.current_op_id op ∷ [], returned no_change)
    else let (logs, sent) =
        send_all reaches (Message.log l.current_op_id op) (peers_of l.id l.cluster) in
      if not sent
      then (stored, logs, failed)
      else if leb max_u32 l.current_op_id
      then (stored, logs, panicked)
      else (record stored { current_op_id = l.current_op_id + 1 }, logs, returned no_change)

-- `((len as f32 - 1.0) / 2.0).round()`, where a half is rounded up; a negative value becomes 0. The
-- `f32` is exact up to 2^24 members.
abbrev pub needed_acks : ℕ → ℕ
needed_acks len = (len - 1 + 1) / 2

-- The size of an empty cluster underflows, if it is looked at.
unfoldable pub handle_ack : Leader → ℕ → Leader × List NodeEffect × Ending
handle_ack l op_id = elim (lookup op_id l.operations) [
  | none ↦ (l, [], returned no_change)
  | some pending ↦
      let acked : PendingOperation = record pending { ack_count = pending.ack_count + 1 } in
      let counted : Leader = record l { operations = insert op_id acked l.operations } in
      let executed : Leader × List NodeEffect × Ending =
        (counted, execute op_id pending.op ∷ [], returned no_change) in
      if leb max_usize pending.ack_count
      then (l, [], panicked)
      else if acked.ack_count == needed_acks (length l.cluster)
      then executed
      else if length l.cluster == 0
      then (counted, [], panicked)
      else if length l.cluster == 2
      then executed
      else (counted, [], returned no_change)
]

-- `connection.send(..).await` as the last expression.
unfoldable pub sending : (SocketAddr → Bool) → Message → SocketAddr → List NodeEffect × Ending
sending reaches m addr = (send m addr ∷ [], if reaches addr then returned no_change else failed)

-- The result of an operation that is neither `GetDatabase` nor `ReplaceDatabase`.
unfoldable pub answer_client :
    (SocketAddr → Bool)
    → Leader
    → PendingOperation
    → Operation
    → OperationResult
    → List NodeEffect × Ending
unfolding sending
answer_client reaches l pending op result =
    if same_addr pending.client_addr l.address
    then (answer_station pending.request_id op result, returned no_change)
    else sending reaches (Message.response pending.request_id result) pending.client_addr
  where
    answer_station : ℕ → Operation → OperationResult → List NodeEffect
    answer_station request_id (Operation.charge _ _ _ _) (OperationResult.charge ChargeResult.ok) =
        charge_result request_id true none ∷ []
    answer_station request_id (Operation.charge _ _ _ _)
          (OperationResult.charge (ChargeResult.failed e)) =
        charge_result request_id false (some e) ∷ []
    answer_station _ _ _ = []

-- The answer to a join; a second attempt, `again`, follows a failed one.
unfoldable pub answer_join :
    (SocketAddr → Bool)
    → (SocketAddr → Bool)
    → Leader
    → SocketAddr
    → OperationResult
    → List NodeEffect × Ending
unfolding sending
answer_join reaches again l addr (OperationResult.database_snapshot snapshot) =
    let view = Message.cluster_view l.cluster l.address snapshot in
    if reaches addr
    then (send view addr ∷ [], returned no_change)
    else let (second, ending) = sending again view addr in (send view addr ∷ second, ending)
answer_join reaches again l addr _ = ([], returned no_change)

-- The `match` on the operation of a result.
unfoldable pub answer :
    (SocketAddr → Bool)
    → (SocketAddr → Bool)
    → Leader
    → PendingOperation
    → Operation
    → OperationResult
    → List NodeEffect × Ending
unfolding answer_client answer_join
answer reaches again l pending (Operation.get_database addr) result =
    answer_join reaches again l addr result
answer reaches again l pending (Operation.replace_database _) result = ([], returned no_change)
answer reaches again l pending op result = answer_client reaches l pending op result

abbrev pub with_leader : Leader → List NodeEffect × Ending → Leader × List NodeEffect × Ending
with_leader l (effects, ending) = (l, effects, ending)

-- The local origin that a result of operation 0 is given.
abbrev local_pending : Leader → Operation → PendingOperation
local_pending l op = record { op = op; client_addr = l.address; ack_count = 0; request_id = 0 }

-- Operation 0 is the leader's own; the result of another one that is not pending panics.
unfoldable pub handle_operation_result :
    (SocketAddr → Bool)
    → (SocketAddr → Bool)
    → Leader
    → ℕ
    → Operation
    → OperationResult
    → Leader × List NodeEffect × Ending
unfolding answer
handle_operation_result reaches again l op_id operation result =
    if op_id == 0
    then with_leader l (answer reaches again l (local_pending l operation) operation result)
    else elim (lookup op_id l.operations) [
      | none ↦ (l, [], panicked)
      | some pending ↦
          let removed : Leader = record l { operations = erase op_id l.operations } in
          with_leader removed (answer reaches again removed pending operation result)
    ]

-- `handle_response` and `handle_log` are `todo!()`.
unfoldable pub handle_response : Leader → ℕ → OperationResult → Leader × List NodeEffect × Ending
handle_response l req_id op_result = (l, [], panicked)

unfoldable pub handle_log : Leader → ℕ → Operation → Leader × List NodeEffect × Ending
handle_log l op_id new_op = (l, [], panicked)
