-- ===== src/Nodes/Loop/Replays.antt =====
-- When the charges of a node that was offline reach the leader: server/src/node/node.rs, leader.rs
-- and replica.rs.
use ypf_fleet_fuel_distribut.Prelude.{
  ◌+◌, ℕ, ◌≤◌, true, List, [], ◌∷◌, ◌++◌, ◌≡◌, refl, arith, append-nil, Bool, none,
}
use ypf_fleet_fuel_distribut.Nodes.Loop.{
  Outside, NodeEvent, from_node, from_database, take_event, after_turn, loop_turn, handle_node_msg,
  handle_actor_event,
}
use ypf_fleet_fuel_distribut.Domain.{
  SocketAddr, Operation, OperationResult, DatabaseSnapshot, Message,
}
use ypf_fleet_fuel_distribut.Actors.Messages.{ActorEvent}
use ypf_fleet_fuel_distribut.Nodes.Effects.{NodeEffect, send, returned, no_change}
use ypf_fleet_fuel_distribut.Nodes.Leader.{Leader}
use ypf_fleet_fuel_distribut.Nodes.Leader as OfLeader
use ypf_fleet_fuel_distribut.Nodes.Leader.Members as LeaderMembers
use ypf_fleet_fuel_distribut.Nodes.Replica.{Replica, into_replica, drain_queue}
use ypf_fleet_fuel_distribut.Nodes.Replica as OfReplica
use ypf_fleet_fuel_distribut.Nodes.Loop.Roles.{
  NodeRuntime, leading, following, runs, runtime_turn, run_node_runtime, change_role,
}

-- The requests that send operations to a leader, in order.
unfoldable pub replays : (leader self : SocketAddr) → List Operation → List NodeEffect
replays leader self [] = []
replays leader self (op ∷ ops) = send (Message.request 0 op self) leader ∷ replays leader self ops

-- The database has been replaced by that of the cluster.
abbrev pub replaced : DatabaseSnapshot → OperationResult → NodeEvent
replaced snapshot result =
    from_database
      (ActorEvent.operation_result 0 (Operation.replace_database snapshot) result true none)

drain_queue-accepted :
    (accepts : ℕ → Bool) (k : ℕ) (r : Replica) (ops : List Operation)
    → ((j : ℕ) → accepts j ≡ true)
    → drain_queue accepts k r ops
      ≡ (record r { offline_queue = [] }, replays r.leader_addr r.address ops, returned no_change)
unfolding drain_queue replays
drain_queue-accepted accepts k r [] accepted = refl
drain_queue-accepted accepts k r (op ∷ ops) accepted =
    ground (arith, accepted k, drain_queue-accepted accepts (k + 1) r ops accepted)

pub demoted_by_coordinator :
    (hash : SocketAddr → ℕ) (out : Outside) (l : Leader) (id : ℕ) (addr : SocketAddr)
    → l.id ≤ id
    → runtime_turn hash (leading l) out (from_node (Message.coordinator id addr))
      ≡ (following (into_replica l addr), [], runs)
unfolding runtime_turn loop_turn take_event after_turn handle_node_msg change_role into_replica
    LeaderMembers.handle_coordinator
demoted_by_coordinator hash out l id addr higher = ground arith

leader_ignores_result :
    (hash : SocketAddr → ℕ) (out : Outside) (l : Leader) (snapshot : DatabaseSnapshot)
    (result : OperationResult)
    → runtime_turn hash (leading l) out (replaced snapshot result) ≡ (leading l, [], runs)
unfolding runtime_turn loop_turn take_event after_turn handle_actor_event
    OfLeader.handle_operation_result OfLeader.answer
leader_ignores_result hash out l snapshot result = refl

replica_replays :
    (hash : SocketAddr → ℕ) (out : Outside) (r : Replica) (snapshot : DatabaseSnapshot)
    (result : OperationResult)
    → ((k : ℕ) → out.accepts k ≡ true)
    → runtime_turn hash (following r) out (replaced snapshot result) ≡ (
      following (record r { offline_queue = [] }),
      replays r.leader_addr r.address r.offline_queue,
      runs,
    )
unfolding runtime_turn loop_turn take_event after_turn handle_actor_event
    OfReplica.handle_operation_result
replica_replays hash out r snapshot result accepted =
    rw (drain_queue-accepted out.accepts 0 r r.offline_queue accepted) refl

two_turns :
    (hash : SocketAddr → ℕ) (a b c : NodeRuntime) (out out' : Outside) (event event' : NodeEvent)
    (now later : List NodeEffect)
    → runtime_turn hash a out event ≡ (b, now, runs)
    → runtime_turn hash b out' event' ≡ (c, later, runs)
    → run_node_runtime hash a ((out, event) ∷ (out', event') ∷ []) ≡ (c, now ++ later, runs)
unfolding run_node_runtime
two_turns hash a b c out out' event event' now later e e' = ground (arith, e, e', append-nil later)

-- A leader that has been offline joins a cluster whose leader has no lower id. If it hears of that
-- leader before its database has been replaced, it sends it all its offline charges, in order, and none
-- waits any more; its sends to the leader succeed. If its database is replaced first, it becomes a
-- replica of the leader as well, but it sends nothing, and all the charges go on waiting.
pub order_decides_replay :
    (hash : SocketAddr → ℕ) (l : Leader) (told done : Outside) (id : ℕ) (addr : SocketAddr)
    (snapshot : DatabaseSnapshot) (result : OperationResult)
    → l.id ≤ id
    → ((k : ℕ) → done.accepts k ≡ true)
    → let coordinator = from_node (Message.coordinator id addr) in
      (run_node_runtime hash
          (leading l)
          ((told, coordinator) ∷ (done, replaced snapshot result) ∷ [])
        ≡ (
          following (record (into_replica l addr) { offline_queue = [] }),
          replays addr l.address l.offline_queue,
          runs,
        ))
      × (run_node_runtime hash
            (leading l)
            ((done, replaced snapshot result) ∷ (told, coordinator) ∷ [])
          ≡ (following (into_replica l addr), [], runs))
      × ((into_replica l addr).offline_queue ≡ l.offline_queue)
unfolding into_replica
order_decides_replay hash l told done id addr snapshot result higher accepted =
    let replica = into_replica l addr in
    let demoted = demoted_by_coordinator hash told l id addr higher in
    (
      two_turns hash (leading l) (following replica) _ told done _ _ [] _ demoted
          (replica_replays hash done replica snapshot result accepted),
      two_turns hash (leading l) (leading l) _ done told _ _ [] []
          (leader_ignores_result hash done l snapshot result) demoted,
      refl,
    )
