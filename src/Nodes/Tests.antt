-- ===== src/Nodes/Tests.antt =====
-- Nodes that start, join and take over: server/src/main.rs, server/src/node/leader.rs and replica.rs.
use ypf_fleet_fuel_distribut.Nodes.Promotions.{promotion_forgets_logged}
use ypf_fleet_fuel_distribut.Nodes.Elections.{
  OthersLower, without_leader, deliver, leader_of, highest_becomes_leader, is_replica,
}
use ypf_fleet_fuel_distribut.Nodes.Replica.{into_leader, Replica}
use ypf_fleet_fuel_distribut.Nodes.Replica.Log.{after_log}
use ypf_fleet_fuel_distribut.Nodes.Replica.Members.{
  retain_others, handle_cluster_view, handle_cluster_update,
}
use ypf_fleet_fuel_distribut.Nodes.Loop.{
  receive_failed, connection_lost_with, from_node, from_database, Outside,
}
use ypf_fleet_fuel_distribut.Nodes.Loop.Roles.{
  NodeRuntime, leading, RuntimeCourse, runtime_turn, following, runs, run_node_runtime,
}
use ypf_fleet_fuel_distribut.Actors.Messages.{ActorEvent}
use ypf_fleet_fuel_distribut.Domain.{
  ChargeResult, SocketAddr, Message, Operation, OperationResult, DatabaseSnapshot,
}
use ypf_fleet_fuel_distribut.Nodes.Leader.{
  handle_request, Leader, peers_of, handle_operation_result,
}
use ypf_fleet_fuel_distribut.Nodes.Effects.{
  new_pending, send_each, NodeEffect, Ending, send, get_id_given_addr, execute,
}
use ypf_fleet_fuel_distribut.Prelude.{
  ◌-◌, ℕ, ◌+◌, ◌≡◌, refl, true, false, none, [], ◌∷◌, arith, HashMap, IsMap, lookup, some, List,
  All,
}
use ypf_fleet_fuel_distribut.Nodes.Leader.Members as LeaderMembers
use ypf_fleet_fuel_distribut.Nodes.Start.{run_server, new_replica, RoleArgs}
use ypf_fleet_fuel_distribut.Nodes.Requests.{
  replica_follows_requests, receive_all, received, run_requests, times,
}
use ypf_fleet_fuel_distribut.Nodes.Joins.{join_agrees, Agree}

abbrev node : ℕ → SocketAddr
node k = SocketAddr.v4 127 0 0 1 (9000 + k)

abbrev members : HashMap SocketAddr
members = (1, node 1) ∷ (3, node 3) ∷ (2, node 2) ∷ []

-- Replica `k` of three nodes, which node 1 leads.
abbrev replica : ℕ → Replica
replica k = record {
  id = k;
  address = node k;
  leader_addr = node 1;
  cluster = members;
  operations = [];
  is_offline = false;
  offline_queue = [];
  election_in_progress = false;
  election_start = none;
}

abbrev leader : Leader
leader = record {
  id = 1;
  current_op_id = 4;
  address = node 1;
  cluster = members;
  operations = [];
  is_offline = false;
  offline_queue = [];
  election_in_progress = false;
  election_start = none;
}

-- The id of `node k` is `k`.
abbrev number : SocketAddr → ℕ
number (SocketAddr.v4 _ _ _ _ port) = port - 9001
number (SocketAddr.v6 _ port) = port

abbrev calm : Outside
calm = record {
  reaches = λ addr. true;
  again = λ addr. true;
  accepts = λ k. true;
  reconnects = true;
  fault = connection_lost_with (node 1);
  now = 100;
}

leader_known : lookup (get_id_given_addr number (node 1)) members ≡ some (node 1)
unfolding get_id_given_addr
leader_known = refl

three_highest : OthersLower 3 (node 1) members
three_highest = (λ h. omega arith, (λ h. omega arith, (λ h. omega arith, tt)))

two_remains : times (node 2) (peers_of 3 (without_leader (replica 3)).cluster) ≡ 1
unfolding peers_of retain_others
two_remains = refl

abbrev sent_by_three : List NodeEffect
sent_by_three = (runtime_turn number (following (replica 3)) calm receive_failed).1

abbrev two_after : NodeRuntime × List NodeEffect × RuntimeCourse
two_after =
    run_node_runtime number (following (replica 2)) (deliver calm (received (node 2) sent_by_three))

highest_becomes_leader_example :
    ((runtime_turn number (following (replica 3)) calm receive_failed).0
      ≡ leading (into_leader (without_leader (replica 3))))
    × (leader_of (runtime_turn number (following (replica 3)) calm receive_failed).0 ≡ node 3)
    × ((runtime_turn number (following (replica 3)) calm receive_failed).2 ≡ runs)
    × (received (node 2) sent_by_three ≡ Message.coordinator 3 (node 3) ∷ [])
    × (is_replica two_after.0 ≡ true)
    × (leader_of two_after.0 ≡ node 3)
    × (two_after.2 ≡ runs)
highest_becomes_leader_example =
    highest_becomes_leader number (replica 3) (following (replica 2)) calm calm refl refl
      leader_known three_highest (omega arith) two_remains

-- Replica 3 has logged the charge 4.
abbrev logged_replica : Replica
logged_replica = record (replica 3) { operations = (4, Operation.charge 7 1 0x42480000 false) ∷ [] }

abbrev new_leader : Leader
new_leader = into_leader (without_leader (after_log logged_replica 4 (Operation.bill 7 none)))

abbrev promotion : NodeRuntime × List NodeEffect × RuntimeCourse
promotion = run_node_runtime number (following logged_replica) (
    (calm, from_node (Message.log 5 (Operation.bill 7 none)))
    ∷ (
      calm,
      from_database (
          ActorEvent.operation_result 4 (Operation.charge 7 1 0x42480000 false)
            (OperationResult.charge ChargeResult.ok) true none),
    )
    ∷ (calm, receive_failed)
    ∷ [])

promotion_forgets_logged_example :
    (promotion.0 ≡ leading new_leader)
    × (promotion.2 ≡ runs)
    × (promotion.1
        ≡ execute 4 (Operation.charge 7 1 0x42480000 false)
          ∷ send (Message.ack 5) (node 1)
          ∷ send_each
              (Message.coordinator 3 (node 3))
              (peers_of 3 (without_leader (replica 3)).cluster))
    × (lookup 5 (after_log logged_replica 4 (Operation.bill 7 none)).operations
        ≡ some (Operation.bill 7 none))
    × (new_leader.operations ≡ [])
    × (lookup 5
          (handle_request
            (λ a. true)
            new_leader
            9
            (Operation.limit_card 7 1 none)
            (node 50)).0.operations
        ≡ some (new_pending (Operation.limit_card 7 1 none) (node 50) 9))
promotion_forgets_logged_example =
    promotion_forgets_logged number logged_replica calm calm calm 4 7 1 0x42480000 false
      (Operation.bill 7 none) (OperationResult.charge ChargeResult.ok) true none (λ a. true) 9
      (Operation.limit_card 7 1 none) (node 50) refl (omega arith, tt) (omega arith) (omega arith)
      refl refl refl leader_known three_highest

-- The last number of an address.
abbrev hash : SocketAddr → ℕ
hash (SocketAddr.v4 _ _ _ _ port) = port
hash (SocketAddr.v6 _ port) = port

started_replica_joins :
    run_server hash (node 7) (RoleArgs.replica (node 1)) []
    ≡ some (
      following (new_replica hash (node 7) (node 1)),
      send (Message.join (node 7)) (node 1) ∷ [],
      runs,
    )
unfolding run_server run_node_runtime
started_replica_joins = refl

station_role_panics : run_server hash (node 7) (RoleArgs.station (node 1)) [] ≡ none
unfolding run_server
station_role_panics = refl

different_ids : IsMap leader.cluster
different_ids = (refl, (refl, (refl, tt)))

abbrev snapshot : DatabaseSnapshot
snapshot = record { addr = node 1; accounts = []; cards = [] }

-- The leader has taken in the node 7.
abbrev joined_leader : Leader
joined_leader = (LeaderMembers.handle_join hash (λ a. true) leader (node 7)).0

abbrev view_of_join : Leader × List NodeEffect × Ending
view_of_join =
    handle_operation_result (λ a. true) (λ a. true) joined_leader 0
      (Operation.get_database (node 7)) (OperationResult.database_snapshot snapshot)

abbrev joined_replica : Replica
joined_replica =
    (handle_cluster_view hash 100 (new_replica hash (node 7) (node 1)) view_of_join.0.cluster
      (node 1) snapshot).0

join_agrees_example :
    (view_of_join.1
      ≡ send (Message.cluster_view view_of_join.0.cluster (node 1) snapshot) (node 7) ∷ [])
    × (lookup 9008 view_of_join.0.cluster ≡ some (node 7))
    × Agree joined_replica.cluster view_of_join.0.cluster
    × (joined_replica.leader_addr ≡ node 1)
    × Agree (handle_cluster_update (replica 2) 9008 (node 7)).cluster view_of_join.0.cluster
unfolding new_replica get_id_given_addr
join_agrees_example =
    join_agrees hash (λ a. true) (λ a. true) 100 leader (new_replica hash (node 7) (node 1))
      (replica 2) snapshot different_ids (λ k. refl) refl

-- Replica 2 has logged the operation 3.
abbrev following_replica : Replica
following_replica = record (replica 2) { operations = (3, Operation.bill 7 none) ∷ [] }

abbrev two_requests : List (ℕ × Operation × SocketAddr)
two_requests =
    (8, Operation.charge 7 1 0x42480000 false, node 50)
    ∷ (9, Operation.limit_card 7 1 none, node 51)
    ∷ []

both_reached : All (λ (a : SocketAddr). true ≡ true) (peers_of 1 members)
unfolding peers_of
both_reached = (refl, (refl, tt))

once_a_peer : times (node 2) (peers_of 1 members) ≡ 1
unfolding peers_of
once_a_peer = refl

replica_follows_requests_example :
    (receive_all hash calm following_replica
      (received (node 2) (run_requests (λ a. true) leader two_requests).1)).1
    ≡ execute 3 (Operation.bill 7 none) ∷ execute 4 (Operation.charge 7 1 0x42480000 false) ∷ []
replica_follows_requests_example =
    replica_follows_requests hash (λ a. true) calm leader following_replica 3
      (Operation.bill 7 none) two_requests (omega arith) both_reached once_a_peer refl (omega arith)
      refl (omega arith)
