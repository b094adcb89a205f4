-- ===== src/Nodes/Loop/Panics.antt =====
-- What panics a node: server/src/node/node.rs, leader.rs and replica.rs.
use ypf_fleet_fuel_distribut.Prelude.{
  leb, ℕ, Bool, true, false, ◌&&◌, not, List, ◌≡◌, ◌∙◌, refl, arith, ltb, ◌==◌,
}
use ypf_fleet_fuel_distribut.Domain.{SocketAddr, Operation, Message}
use ypf_fleet_fuel_distribut.Station.{StationToNodeMsg}
use ypf_fleet_fuel_distribut.Actors.Messages.{ActorEvent}
use ypf_fleet_fuel_distribut.Nodes.Effects.{
  is_panic, Ending, returned, failed, panicked, no_change, promote_to_leader, demote_to_replica,
  NodeEffect,
}
use ypf_fleet_fuel_distribut.Nodes.Leader.{Leader, max_u32}
use ypf_fleet_fuel_distribut.Nodes.Replica.{Replica}
use ypf_fleet_fuel_distribut.Nodes.Loop.{
  Node, Turn, Outside, NodeEvent, from_node, from_station, from_database, receive_failed,
  station_down, database_down, election_tick, NodeError, connection_lost_with, connection_lost,
  connection_refused, other_error, Course, course_of, goes_on, crashes, changes, stops, loop_turn,
  after_turn, after_error, take_event, handle_node_msg, handle_station_msg, handle_charge_request,
  handle_actor_event,
}
use ypf_fleet_fuel_distribut.Nodes.Loop.Roles.{
  leader_node, replica_node, NodeRuntime, leading, following, RuntimeCourse, dies, runs, fails,
  finishes, after_run, runtime_turn,
}
use ypf_fleet_fuel_distribut.Nodes.Leader as OfLeader
use ypf_fleet_fuel_distribut.Nodes.Leader.Members as LeaderMembers
use ypf_fleet_fuel_distribut.Nodes.Replica as OfReplica
use ypf_fleet_fuel_distribut.Nodes.Replica.Members as ReplicaMembers
use ypf_fleet_fuel_distribut.Nodes.Loop.Handlers.{
  ack_overflows, ack_panics, ids_run_out, request_panics, is_pending, leader_result_panics,
  start_election_never_panics, rejoin_never_panics, drain_never_panics, replica_loss_never_panics,
}

-- The events that panic a leader.
abbrev pub fatal_to_leader : Outside → Leader → NodeEvent → Bool
fatal_to_leader out l (from_node (Message.request _ _ _)) = ids_run_out out.reaches l
fatal_to_leader out l (from_node (Message.ack op_id)) = ack_overflows l op_id
fatal_to_leader out l (from_node (Message.log _ _)) = true
fatal_to_leader out l (from_node (Message.response _ _)) = true
fatal_to_leader out l (from_node (Message.role_response _ _)) = true
fatal_to_leader out l (from_station (StationToNodeMsg.charge_request _ _ _ _)) =
    not l.is_offline && ids_run_out out.reaches l
fatal_to_leader out l (from_database (ActorEvent.operation_result op_id _ _ _ _)) =
    not (op_id == 0) && not (is_pending op_id l.operations)
fatal_to_leader out l station_down = true
fatal_to_leader out l database_down = true
fatal_to_leader out l _ = false

-- The events that panic a replica.
abbrev pub fatal_to_replica : Replica → NodeEvent → Bool
fatal_to_replica r (from_node (Message.ack _)) = true
fatal_to_replica r (from_node (Message.log op_id _)) = op_id == 0
fatal_to_replica r (from_node (Message.coordinator leader_id _)) = ltb leader_id r.id
fatal_to_replica r (from_node (Message.role_response _ _)) = true
fatal_to_replica r
      (from_database (ActorEvent.operation_result _ (Operation.replace_database _) _ _ _)) =
    false
fatal_to_replica r (from_database (ActorEvent.operation_result op_id _ _ _ _)) = leb max_u32 op_id
fatal_to_replica r station_down = true
fatal_to_replica r database_down = true
fatal_to_replica r _ = false

leader_event_panics :
    (hash : SocketAddr → ℕ) (out : Outside) (l : Leader) (event : NodeEvent)
    → is_panic (take_event (leader_node hash) out l event).2 ≡ fatal_to_leader out l event
unfolding take_event handle_node_msg handle_station_msg handle_charge_request handle_actor_event
    OfLeader.handle_request OfLeader.handle_log OfLeader.handle_response OfLeader.handle_ack
    LeaderMembers.handle_coordinator LeaderMembers.handle_join LeaderMembers.handle_role_query
    LeaderMembers.handle_connect_node
leader_event_panics hash out l (from_node (Message.request req_id op addr)) =
    request_panics out.reaches l req_id op addr
leader_event_panics hash out l (from_node (Message.log op_id op)) = refl
leader_event_panics hash out l (from_node (Message.ack op_id)) = ack_panics l op_id
leader_event_panics hash out l (from_node (Message.election id addr)) = refl
leader_event_panics hash out l (from_node (Message.election_ok id)) = refl
leader_event_panics hash out l (from_node (Message.coordinator id addr)) = ground arith
leader_event_panics hash out l (from_node (Message.join addr)) = ground arith
leader_event_panics hash out l (from_node (Message.cluster_view members addr database)) = refl
leader_event_panics hash out l (from_node (Message.cluster_update new_member)) = refl
leader_event_panics hash out l (from_node (Message.response req_id op_result)) = refl
leader_event_panics hash out l (from_node (Message.role_query addr)) = ground arith
leader_event_panics hash out l (from_node (Message.role_response id role)) = refl
leader_event_panics hash out l (from_station (StationToNodeMsg.charge_request a c x id)) =
    ground (arith, request_panics out.reaches l id (Operation.charge a c x false) l.address)
leader_event_panics hash out l (from_station StationToNodeMsg.disconnect_node) = refl
leader_event_panics hash out l (from_station StationToNodeMsg.connect_node) = ground arith
leader_event_panics hash out l (from_database (ActorEvent.operation_result op_id op result _ _)) =
    ground (arith, leader_result_panics out.reaches out.again l op_id op result)
leader_event_panics hash out l (from_database ActorEvent.debug) = refl
leader_event_panics hash out l receive_failed = refl
leader_event_panics hash out l station_down = refl
leader_event_panics hash out l database_down = refl
leader_event_panics hash out l election_tick = refl

replica_event_panics :
    (hash : SocketAddr → ℕ) (out : Outside) (r : Replica) (event : NodeEvent)
    → is_panic (take_event (replica_node hash) out r event).2 ≡ fatal_to_replica r event
unfolding take_event handle_node_msg handle_station_msg handle_charge_request handle_actor_event
    OfReplica.handle_request OfReplica.handle_log OfReplica.handle_ack OfReplica.commit_operation
    OfReplica.handle_operation_result ReplicaMembers.handle_coordinator ReplicaMembers.handle_join
    ReplicaMembers.handle_role_query ReplicaMembers.handle_connect_node
    ReplicaMembers.handle_election ReplicaMembers.handle_cluster_view
    ReplicaMembers.handle_election_timeout ReplicaMembers.anounce_coordinator
replica_event_panics hash out r (from_node (Message.request req_id op addr)) = ground arith
replica_event_panics hash out r (from_node (Message.log op_id op)) = ground arith
replica_event_panics hash out r (from_node (Message.ack op_id)) = refl
replica_event_panics hash out r (from_node (Message.election id addr)) =
    ground (arith, start_election_never_panics out.now r)
replica_event_panics hash out r (from_node (Message.election_ok id)) = refl
replica_event_panics hash out r (from_node (Message.coordinator id addr)) = ground arith
replica_event_panics hash out r (from_node (Message.join addr)) = ground arith
replica_event_panics hash out r (from_node (Message.cluster_view members addr database)) =
    ground arith
replica_event_panics hash out r (from_node (Message.cluster_update new_member)) = refl
replica_event_panics hash out r (from_node (Message.response req_id op_result)) = refl
replica_event_panics hash out r (from_node (Message.role_query addr)) = ground arith
replica_event_panics hash out r (from_node (Message.role_response id role)) = refl
replica_event_panics hash out r (from_station (StationToNodeMsg.charge_request a c x id)) =
    ground arith
replica_event_panics hash out r (from_station StationToNodeMsg.disconnect_node) = refl
replica_event_panics hash out r (from_station StationToNodeMsg.connect_node) =
    ground
      (arith, rejoin_never_panics out.reaches out.again r.address (LeaderMembers.values r.cluster))
replica_event_panics hash out r
      (from_database
        (ActorEvent.operation_result op_id (Operation.replace_database _) result _ _)) =
    ground (arith, drain_never_panics out.accepts 0 r r.offline_queue)
replica_event_panics hash out r (from_database (ActorEvent.operation_result op_id _ result _ _)) =
    ground arith
replica_event_panics hash out r (from_database ActorEvent.debug) = refl
replica_event_panics hash out r receive_failed = refl
replica_event_panics hash out r station_down = refl
replica_event_panics hash out r database_down = refl
replica_event_panics hash out r election_tick = ground arith

abbrev is_crash : Course → Bool
is_crash crashes = true
is_crash goes_on = false
is_crash (changes _) = false
is_crash (stops _) = false

course_crashes : (ending : Ending) → is_crash (course_of ending) ≡ is_panic ending
course_crashes (returned no_change) = refl
course_crashes (returned promote_to_leader) = refl
course_crashes (returned (demote_to_replica addr)) = refl
course_crashes failed = refl
course_crashes panicked = refl

module _ {S : Type 0} (n : Node S) (out : Outside)
    (safe : (s : S) (addr : SocketAddr)
      → is_panic (n.handle_connection_lost_with out s addr).2 ≡ false) where
  error_never_crashes : (s : S) (error : NodeError) → is_crash (after_error n out s error).2 ≡ false
  unfolding after_error
  error_never_crashes s (connection_lost_with addr) =
      course_crashes (n.handle_connection_lost_with out s addr).2 ∙ safe s addr
  error_never_crashes s connection_lost = refl
  error_never_crashes s connection_refused = refl
  error_never_crashes s other_error = refl

  turn_crashes : (turn : Turn S) → is_crash (after_turn n out turn).2 ≡ is_panic turn.2
  unfolding after_turn
  turn_crashes (s, effects, returned no_change) = refl
  turn_crashes (s, effects, returned promote_to_leader) = refl
  turn_crashes (s, effects, returned (demote_to_replica addr)) = refl
  turn_crashes (s, effects, panicked) = refl
  turn_crashes (s, effects, failed) = error_never_crashes s out.fault

abbrev pub is_dead : RuntimeCourse → Bool
is_dead dies = true
is_dead runs = false
is_dead (fails _) = false
is_dead finishes = false

abbrev pub fatal : Outside → NodeRuntime → NodeEvent → Bool
fatal out (leading l) event = fatal_to_leader out l event
fatal out (following r) event = fatal_to_replica r event

after_run_dies :
    (node : NodeRuntime) (effects : List NodeEffect) (course : Course)
    → is_dead (after_run node effects course).2 ≡ is_crash course
after_run_dies node effects goes_on = refl
after_run_dies node effects (changes no_change) = refl
after_run_dies node effects (changes promote_to_leader) = refl
after_run_dies node effects (changes (demote_to_replica addr)) = refl
after_run_dies node effects (stops error) = refl
after_run_dies node effects crashes = refl

-- Which turns panic the process of a node, in a debug build. For a leader: a log message, a response
-- or a role response from a peer; the result of an operation other than 0 that is not pending; an ack
-- of a pending operation if the cluster is empty or the count is the largest `usize`; a request,
-- or a charge of the station while it is online, that all others are sent under the largest `u32`
-- as its id, unless the cluster has one member. For a replica: an ack, a role response, a
-- coordinator with an id lower than its own, a log message with the id 0, and the result of an
-- operation other than a replacement of the database with the largest `u32` as its id. For both, the
-- end of the station or of the database. No other turn panics in its handler, where a send itself does
-- not panic, as it does on an IPv6 address.
pub node_dies_iff :
    (hash : SocketAddr → ℕ) (node : NodeRuntime) (out : Outside) (event : NodeEvent)
    → is_dead (runtime_turn hash node out event).2 ≡ fatal out node event
unfolding runtime_turn loop_turn LeaderMembers.handle_connection_lost_with
node_dies_iff hash (leading l) out event =
    let n = leader_node hash in
    let turn = take_event n out l event in
    let (l', effects, course) = after_turn n out turn in
    after_run_dies (leading l') effects course
    ∙ turn_crashes n out (λ s addr. refl) turn
    ∙ leader_event_panics hash out l event
node_dies_iff hash (following r) out event =
    let n = replica_node hash in
    let turn = take_event n out r event in
    let (r', effects, course) = after_turn n out turn in
    after_run_dies (following r') effects course
    ∙ turn_crashes n out (replica_loss_never_panics hash out.now) turn
    ∙ replica_event_panics hash out r event
