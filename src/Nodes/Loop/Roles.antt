-- ===== src/Nodes/Loop/Roles.antt =====
-- server/src/node/node.rs: leader and replica as nodes, and the change of roles. `hash` is the
-- standard library's hash of an address.
use ypf_fleet_fuel_distribut.Prelude.{ℕ, List, [], ◌∷◌, ◌++◌}
use ypf_fleet_fuel_distribut.Domain.{SocketAddr}
use ypf_fleet_fuel_distribut.Nodes.Effects.{
  RoleChange, no_change, promote_to_leader, demote_to_replica, NodeEffect, returned,
}
use ypf_fleet_fuel_distribut.Nodes.Leader.{Leader}
use ypf_fleet_fuel_distribut.Nodes.Leader as OfLeader
use ypf_fleet_fuel_distribut.Nodes.Leader.Members as LeaderMembers
use ypf_fleet_fuel_distribut.Nodes.Replica.{Replica, into_leader, into_replica}
use ypf_fleet_fuel_distribut.Nodes.Replica as OfReplica
use ypf_fleet_fuel_distribut.Nodes.Replica.Members as ReplicaMembers
use ypf_fleet_fuel_distribut.Nodes.Loop.{
  Node, Turn, Outside, NodeEvent, NodeError, Course, goes_on, changes, stops, crashes, loop_turn,
}

-- A handler that cannot fail.
abbrev pub always : {S : Type 0} → S × List NodeEffect → Turn S
always (s, effects) = (s, effects, returned no_change)

-- `impl Node for Leader`
abbrev pub leader_node : (SocketAddr → ℕ) → Node Leader
leader_node hash = record {
  is_offline = λ l. l.is_offline;
  log_offline_operation = LeaderMembers.log_offline_operation;
  get_address = λ l. l.address;
  handle_request = λ out. OfLeader.handle_request out.reaches;
  handle_response = OfLeader.handle_response;
  handle_role_query = λ out l addr.
      OfLeader.with_leader l (LeaderMembers.handle_role_query hash out.reaches l addr);
  handle_log = λ out. OfLeader.handle_log;
  handle_ack = OfLeader.handle_ack;
  handle_operation_result = λ out. OfLeader.handle_operation_result out.reaches out.again;
  handle_connection_lost_with =
      λ out l address. always (LeaderMembers.handle_connection_lost_with hash l address, []);
  handle_disconnect_node = λ l. always (LeaderMembers.handle_disconnect_node l);
  handle_connect_node = λ out. LeaderMembers.handle_connect_node out.reaches out.reconnects;
  handle_election = λ out l id addr. always (LeaderMembers.handle_election out.now l id addr);
  handle_election_ok = λ l. always (LeaderMembers.handle_election_ok l, []);
  handle_coordinator = λ l id addr.
      let (l', change) = LeaderMembers.handle_coordinator l id addr in (l', [], returned change);
  handle_join = λ out. LeaderMembers.handle_join hash out.reaches;
  handle_cluster_view = λ out l members leader_addr snapshot.
      always (LeaderMembers.handle_cluster_view out.now l members snapshot);
  handle_cluster_update = λ l new_member. always (l, []);
  handle_election_timeout = λ out l. always (LeaderMembers.handle_election_timeout out.now l);
}

-- `impl Node for Replica`
abbrev pub replica_node : (SocketAddr → ℕ) → Node Replica
replica_node hash = record {
  is_offline = λ r. r.is_offline;
  log_offline_operation = ReplicaMembers.log_offline_operation;
  get_address = λ r. r.address;
  handle_request = λ out. OfReplica.handle_request out.reaches;
  handle_response = λ r req_id result. always (r, OfReplica.handle_response req_id result);
  handle_role_query = λ out. ReplicaMembers.handle_role_query hash out.reaches;
  handle_log = λ out. OfReplica.handle_log out.reaches;
  handle_ack = OfReplica.handle_ack;
  handle_operation_result =
      λ out r op_id op result. OfReplica.handle_operation_result out.reaches out.accepts r op_id op;
  handle_connection_lost_with = λ out. ReplicaMembers.handle_connection_lost_with hash out.now;
  handle_disconnect_node = λ r. always (ReplicaMembers.handle_disconnect_node r);
  handle_connect_node =
      λ out. ReplicaMembers.handle_connect_node out.reaches out.again out.reconnects;
  handle_election = λ out. ReplicaMembers.handle_election out.now;
  handle_election_ok = λ r. always (ReplicaMembers.handle_election_ok r, []);
  handle_coordinator = λ r id addr.
      let (r', ending) = ReplicaMembers.handle_coordinator r id addr in (r', [], ending);
  handle_join = λ out. ReplicaMembers.handle_join out.reaches;
  handle_cluster_view = λ out. ReplicaMembers.handle_cluster_view hash out.now;
  handle_cluster_update =
      λ r (id, addr). always (ReplicaMembers.handle_cluster_update r id addr, []);
  handle_election_timeout = λ out. ReplicaMembers.handle_election_timeout out.now;
}

pub data NodeRuntime : Type 0 where
  leading : Leader → NodeRuntime
  following : Replica → NodeRuntime

-- The `match` of `run_node_runtime` on a role change.
unfoldable pub change_role : NodeRuntime → RoleChange → NodeRuntime
unfolding into_leader into_replica
change_role (following r) promote_to_leader = leading (into_leader r)
change_role (leading l) (demote_to_replica addr) = following (into_replica l addr)
change_role node _ = node

-- How the runtime goes on: `is_over` says that the node has stopped, with an error or a panic.
pub data RuntimeCourse : Type 0 where
  runs : RuntimeCourse
  fails : NodeError → RuntimeCourse
  finishes dies : RuntimeCourse

abbrev pub after_run :
    NodeRuntime → List NodeEffect → Course → NodeRuntime × List NodeEffect × RuntimeCourse
after_run node effects goes_on = (node, effects, runs)
after_run node effects (changes no_change) = (node, effects, finishes)
after_run node effects (changes change) = (change_role node change, effects, runs)
after_run node effects (stops error) = (node, effects, fails error)
after_run node effects crashes = (node, effects, dies)

unfoldable pub runtime_turn :
    (SocketAddr → ℕ)
    → NodeRuntime
    → Outside
    → NodeEvent
    → NodeRuntime × List NodeEffect × RuntimeCourse
unfolding change_role loop_turn
runtime_turn hash (leading l) out event =
    let (l', effects, course) = loop_turn (leader_node hash) out l event in
    after_run (leading l') effects course
runtime_turn hash (following r) out event =
    let (r', effects, course) = loop_turn (replica_node hash) out r event in
    after_run (following r') effects course

-- `run_node_runtime`, over the turns that it takes.
unfoldable pub run_node_runtime :
    (SocketAddr → ℕ)
    → NodeRuntime
    → List (Outside × NodeEvent)
    → NodeRuntime × List NodeEffect × RuntimeCourse
unfolding runtime_turn
run_node_runtime hash node [] = (node, [], runs)
run_node_runtime hash node ((out, event) ∷ turns) =
    let (node', now, course) = runtime_turn hash node out event in
    let (node'', later, end) = run_node_runtime hash node' turns in
    elim course [
      | runs ↦ (node'', now ++ later, end)
      | fails error ↦ (node', now, fails error)
      | finishes ↦ (node', now, finishes)
      | dies ↦ (node', now, dies)
    ]
