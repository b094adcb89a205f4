-- ===== src/Nodes/Loop/Handlers.antt =====
-- Which handlers of a leader or a replica panic: server/src/node/leader.rs and replica.rs.
use ypf_fleet_fuel_distribut.Prelude.{
  ℕ, Bool, true, false, ◌&&◌, not, List, [], ◌∷◌, ◌≡◌, refl, arith, ◌==◌, some, none, lookup,
  HashMap, leb, length, ◌||◌, ◌+◌,
}
use ypf_fleet_fuel_distribut.Domain.{SocketAddr, Operation, OperationResult, Message}
use ypf_fleet_fuel_distribut.Nodes.Effects.{is_panic, PendingOperation, send_all}
use ypf_fleet_fuel_distribut.Nodes.Leader.{Leader, max_u32, max_usize, peers_of}
use ypf_fleet_fuel_distribut.Nodes.Replica.{Replica}
use ypf_fleet_fuel_distribut.Nodes.Leader as OfLeader
use ypf_fleet_fuel_distribut.Nodes.Replica as OfReplica
use ypf_fleet_fuel_distribut.Nodes.Replica.Members as ReplicaMembers

abbrev pub is_pending : ℕ → HashMap PendingOperation → Bool
is_pending op_id operations = elim (lookup op_id operations) [ none ↦ false | some _ ↦ true ]

answer_never_panics :
    (reaches again : SocketAddr → Bool) (l : Leader) (p : PendingOperation) (op : Operation)
    (result : OperationResult)
    → is_panic (OfLeader.answer reaches again l p op result).1 ≡ false
unfolding OfLeader.answer OfLeader.answer_join OfLeader.sending OfLeader.answer_client
answer_never_panics reaches again l p (Operation.get_database addr)
      (OperationResult.database_snapshot snapshot) =
    ground arith
answer_never_panics reaches again l p (Operation.get_database addr) _ = refl
answer_never_panics reaches again l p (Operation.replace_database _) result = refl
answer_never_panics reaches again l p _ result = ground arith

pub leader_result_panics :
    (reaches again : SocketAddr → Bool) (l : Leader) (op_id : ℕ) (op : Operation)
    (result : OperationResult)
    → is_panic (OfLeader.handle_operation_result reaches again l op_id op result).2
      ≡ (not (op_id == 0) && not (is_pending op_id l.operations))
unfolding OfLeader.handle_operation_result
leader_result_panics reaches again l op_id op result =
    ground (arith, answer_never_panics reaches again)

pub start_election_never_panics :
    (now : ℕ) (r : Replica) → is_panic (ReplicaMembers.start_election now r).2 ≡ false
unfolding ReplicaMembers.start_election ReplicaMembers.anounce_coordinator
    ReplicaMembers.handle_coordinator
start_election_never_panics now r = ground arith

pub rejoin_never_panics :
    (reaches again : SocketAddr → Bool) (self : SocketAddr) (addrs : List SocketAddr)
    → is_panic (ReplicaMembers.rejoin reaches again self addrs).1 ≡ false
unfolding ReplicaMembers.rejoin
rejoin_never_panics reaches again self [] = refl
rejoin_never_panics reaches again self (addr ∷ addrs) =
    ground (arith, rejoin_never_panics reaches again self addrs)

pub drain_never_panics :
    (accepts : ℕ → Bool) (k : ℕ) (r : Replica) (ops : List Operation)
    → is_panic (OfReplica.drain_queue accepts k r ops).2 ≡ false
unfolding OfReplica.drain_queue
drain_never_panics accepts k r [] = refl
drain_never_panics accepts k r (op ∷ ops) = ground (arith, drain_never_panics accepts (k + 1) r ops)

pub replica_loss_never_panics :
    (hash : SocketAddr → ℕ) (now : ℕ) (r : Replica) (addr : SocketAddr)
    → is_panic (ReplicaMembers.handle_connection_lost_with hash now r addr).2 ≡ false
unfolding ReplicaMembers.handle_connection_lost_with
replica_loss_never_panics hash now r addr = ground (arith, start_election_never_panics now)

-- The acks that count over, and those in an empty cluster.
abbrev pub ack_overflows : Leader → ℕ → Bool
ack_overflows l op_id = elim (lookup op_id l.operations) [
  | none ↦ false
  | some p ↦ leb max_usize p.ack_count || length l.cluster == 0
]

pub ack_panics :
    (l : Leader) (op_id : ℕ) → is_panic (OfLeader.handle_ack l op_id).2 ≡ ack_overflows l op_id
unfolding OfLeader.handle_ack
ack_panics l op_id = ground arith

abbrev reaches_all : (SocketAddr → Bool) → List SocketAddr → Bool
reaches_all reaches [] = true
reaches_all reaches (addr ∷ addrs) = reaches addr && reaches_all reaches addrs

send_all-reaches_all :
    (reaches : SocketAddr → Bool) (m : Message) (addrs : List SocketAddr)
    → (send_all reaches m addrs).1 ≡ reaches_all reaches addrs
unfolding send_all
send_all-reaches_all reaches m [] = refl
send_all-reaches_all reaches m (addr ∷ addrs) = ground (arith, send_all-reaches_all reaches m addrs)

-- A request that is logged by all others under the last id of a `u32`.
abbrev pub ids_run_out : (SocketAddr → Bool) → Leader → Bool
ids_run_out reaches l =
    not (length l.cluster == 1)
    && reaches_all reaches (peers_of l.id l.cluster)
    && leb max_u32 l.current_op_id

pub request_panics :
    (reaches : SocketAddr → Bool) (l : Leader) (req_id : ℕ) (op : Operation) (client : SocketAddr)
    → is_panic (OfLeader.handle_request reaches l req_id op client).2 ≡ ids_run_out reaches l
unfolding OfLeader.handle_request
request_panics reaches l req_id op client =
    ground (
      arith,
      send_all-reaches_all reaches (Message.log l.current_op_id op) (peers_of l.id l.cluster),
    )
