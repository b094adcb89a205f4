-- ===== src/Nodes/Loop.antt =====
-- server/src/node/node.rs: the trait that leader and replica implement, its default methods and the
-- loop of a node. What the sockets do in one turn of the loop is a parameter of the turn.
pub mod Roles
pub mod Handlers
pub mod Queues
pub mod Replays
pub mod Panics
mod Tests
use ypf_fleet_fuel_distribut.Prelude.{
  ℕ, Bool, true, false, none, List, [], ◌∷◌, ◌++◌, if◌then◌else◌,
}
use ypf_fleet_fuel_distribut.Float.{F32}
use ypf_fleet_fuel_distribut.Domain.{
  SocketAddr, Operation, OperationResult, DatabaseSnapshot, Message,
}
use ypf_fleet_fuel_distribut.Station.{StationToNodeMsg}
use ypf_fleet_fuel_distribut.Actors.Messages.{ActorEvent}
use ypf_fleet_fuel_distribut.Nodes.Effects.{
  RoleChange, no_change, promote_to_leader, demote_to_replica, NodeEffect, charge_result, Ending,
  returned, failed, panicked,
}

-- The errors that the loop tells apart.
pub data NodeError : Type 0 where
  connection_lost_with : (address : SocketAddr) → NodeError
  connection_lost connection_refused other_error : NodeError

-- One turn of the loop: the sends that succeed at the first and at a second attempt, those that succeed
-- in a series of sends to one node, by their number, whether a reconnection succeeds, the error of
-- what fails, and the time.
pub record Outside : Type 0 where
  pub reaches : SocketAddr → Bool
  pub again : SocketAddr → Bool
  pub accepts : ℕ → Bool
  pub reconnects : Bool
  pub fault : NodeError
  pub now : ℕ

abbrev pub Turn : Type 0 → Type 0
Turn S = S × List NodeEffect × Ending

-- The trait `Node` without its default methods. A method that returns no role change ends in
-- `no_change`.
pub record Node (S : Type 0) : Type 0 where
  pub is_offline : S → Bool
  pub log_offline_operation : S → Operation → S
  pub get_address : S → SocketAddr
  pub handle_request : Outside → S → ℕ → Operation → SocketAddr → Turn S
  pub handle_response : S → ℕ → OperationResult → Turn S
  pub handle_role_query : Outside → S → SocketAddr → Turn S
  pub handle_log : Outside → S → ℕ → Operation → Turn S
  pub handle_ack : S → ℕ → Turn S
  pub handle_operation_result : Outside → S → ℕ → Operation → OperationResult → Turn S
  pub handle_connection_lost_with : Outside → S → SocketAddr → Turn S
  pub handle_disconnect_node : S → Turn S
  pub handle_connect_node : Outside → S → Turn S
  pub handle_election : Outside → S → ℕ → SocketAddr → Turn S
  pub handle_election_ok : S → Turn S
  pub handle_coordinator : S → ℕ → SocketAddr → Turn S
  pub handle_join : Outside → S → SocketAddr → Turn S
  pub handle_cluster_view :
      Outside → S → List (ℕ × SocketAddr) → SocketAddr → DatabaseSnapshot → Turn S
  pub handle_cluster_update : S → ℕ × SocketAddr → Turn S
  pub handle_election_timeout : Outside → S → Turn S

unfoldable pub handle_charge_request :
    {S : Type 0} → Node S → Outside → S → ℕ → ℕ → F32 → (request_id : ℕ) → Turn S
handle_charge_request n out s account_id card_id amount request_id =
    let queued = n.log_offline_operation s (Operation.charge account_id card_id amount true) in
    let op = Operation.charge account_id card_id amount false in
    if n.is_offline s
    then (queued, charge_result request_id true none ∷ [], returned no_change)
    else n.handle_request out s request_id op (n.get_address s)

unfoldable pub handle_station_msg : {S : Type 0} → Node S → Outside → S → StationToNodeMsg → Turn S
unfolding handle_charge_request
handle_station_msg n out s (StationToNodeMsg.charge_request account_id card_id amount request_id) =
    handle_charge_request n out s account_id card_id amount request_id
handle_station_msg n out s StationToNodeMsg.disconnect_node = n.handle_disconnect_node s
handle_station_msg n out s StationToNodeMsg.connect_node = n.handle_connect_node out s

-- A role response is `todo!()`.
unfoldable pub handle_node_msg : {S : Type 0} → Node S → Outside → S → Message → Turn S
handle_node_msg n out s (Message.request req_id op addr) = n.handle_request out s req_id op addr
handle_node_msg n out s (Message.log op_id op) = n.handle_log out s op_id op
handle_node_msg n out s (Message.ack op_id) = n.handle_ack s op_id
handle_node_msg n out s (Message.election candidate_id candidate_addr) =
    n.handle_election out s candidate_id candidate_addr
handle_node_msg n out s (Message.election_ok responder_id) = n.handle_election_ok s
handle_node_msg n out s (Message.coordinator leader_id leader_addr) =
    n.handle_coordinator s leader_id leader_addr
handle_node_msg n out s (Message.join addr) = n.handle_join out s addr
handle_node_msg n out s (Message.cluster_view members leader_addr database) =
    n.handle_cluster_view out s members leader_addr database
handle_node_msg n out s (Message.cluster_update new_member) = n.handle_cluster_update s new_member
handle_node_msg n out s (Message.response req_id op_result) = n.handle_response s req_id op_result
handle_node_msg n out s (Message.role_query addr) = n.handle_role_query out s addr
handle_node_msg n out s (Message.role_response node_id role) = (s, [], panicked)

-- What `run` takes in a turn; `receive_failed` is an error of `connection.recv()`.
pub data NodeEvent : Type 0 where
  from_node : Message → NodeEvent
  from_station : StationToNodeMsg → NodeEvent
  from_database : ActorEvent → NodeEvent
  receive_failed station_down database_down election_tick : NodeEvent

-- An error is only printed.
abbrev pub errors_printed : Ending → Ending
errors_printed failed = returned no_change
errors_printed panicked = panicked
errors_printed (returned _) = returned no_change

unfoldable pub handle_actor_event : {S : Type 0} → Node S → Outside → S → ActorEvent → Turn S
handle_actor_event n out s (ActorEvent.operation_result op_id operation result _ _) =
    let (s', effects, ending) = n.handle_operation_result out s op_id operation result in
    (s', effects, errors_printed ending)
handle_actor_event n out s ActorEvent.debug = (s, [], returned no_change)

-- The `select!`
unfoldable pub take_event : {S : Type 0} → Node S → Outside → S → NodeEvent → Turn S
unfolding handle_node_msg handle_station_msg handle_actor_event
take_event n out s (from_node msg) = handle_node_msg n out s msg
take_event n out s receive_failed = (s, [], failed)
take_event n out s (from_station msg) = handle_station_msg n out s msg
take_event n out s station_down = (s, [], panicked)
take_event n out s (from_database event) = handle_actor_event n out s event
take_event n out s database_down = (s, [], panicked)
take_event n out s election_tick = n.handle_election_timeout out s

-- How the loop goes on: with the next turn, or it has returned a role change or an error, or panicked.
pub data Course : Type 0 where
  goes_on : Course
  changes : RoleChange → Course
  stops : NodeError → Course
  crashes : Course

abbrev pub course_of : Ending → Course
course_of (returned no_change) = goes_on
course_of (returned promote_to_leader) = changes promote_to_leader
course_of (returned (demote_to_replica new_leader_addr)) =
    changes (demote_to_replica new_leader_addr)
course_of failed = goes_on
course_of panicked = crashes

-- The error of a turn: that of a lost peer is handled, and an error of that is dropped.
unfoldable pub after_error :
    {S : Type 0} → Node S → Outside → S → NodeError → S × List NodeEffect × Course
after_error n out s (connection_lost_with address) =
    let (s', effects, ending) = n.handle_connection_lost_with out s address in
    (s', effects, course_of ending)
after_error n out s connection_lost = (s, [], goes_on)
after_error n out s connection_refused = (s, [], goes_on)
after_error n out s other_error = (s, [], stops other_error)

-- The `match` on the result of a turn.
unfoldable pub after_turn : {S : Type 0} → Node S → Outside → Turn S → S × List NodeEffect × Course
unfolding after_error
after_turn n out (s, effects, failed) =
    let (s', more, course) = after_error n out s out.fault in (s', effects ++ more, course)
after_turn n out (s, effects, ending) = (s, effects, course_of ending)

unfoldable pub loop_turn :
    {S : Type 0} → Node S → Outside → S → NodeEvent → S × List NodeEffect × Course
unfolding take_event after_turn
loop_turn n out s event = after_turn n out (take_event n out s event)

-- `Node::run`, over the turns that it takes: up to the one that ends it.
unfoldable pub run :
    {S : Type 0} → Node S → S → List (Outside × NodeEvent) → S × List NodeEffect × Course
unfolding loop_turn
run n s [] = (s, [], goes_on)
run n s ((out, event) ∷ turns) =
    let (s', now, course) = loop_turn n out s event in
    let (s'', later, end) = run n s' turns in
    elim course [
      | goes_on ↦ (s'', now ++ later, end)
      | changes change ↦ (s', now, changes change)
      | stops error ↦ (s', now, stops error)
      | crashes ↦ (s', now, crashes)
    ]
