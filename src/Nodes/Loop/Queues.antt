-- ===== src/Nodes/Loop/Queues.antt =====
-- The offline charges of a leader: server/src/node/node.rs and leader.rs.
use ypf_fleet_fuel_distribut.Prelude.{
  append_assoc, ap, sym, append-nil, ℕ, Bool, true, false, List, [], ◌∷◌, ◌++◌, ◌≡◌, ◌∙◌, refl,
  arith, if◌then◌else◌,
}
use ypf_fleet_fuel_distribut.Domain.{SocketAddr, Operation, Message}
use ypf_fleet_fuel_distribut.Station.{StationToNodeMsg}
use ypf_fleet_fuel_distribut.Actors.Messages.{ActorEvent}
use ypf_fleet_fuel_distribut.Nodes.Effects.{
  returned, failed, panicked, no_change, promote_to_leader, demote_to_replica,
}
use ypf_fleet_fuel_distribut.Nodes.Leader.{Leader}
use ypf_fleet_fuel_distribut.Nodes.Loop.{
  Node, Turn, Outside, NodeEvent, from_node, from_station, from_database, receive_failed,
  station_down, database_down, election_tick, NodeError, connection_lost_with, connection_lost,
  connection_refused, other_error, goes_on, loop_turn, after_turn, after_error, take_event,
  handle_node_msg, handle_station_msg, handle_charge_request, handle_actor_event, run,
}
use ypf_fleet_fuel_distribut.Nodes.Loop.Roles.{leader_node}
use ypf_fleet_fuel_distribut.Nodes.Leader as OfLeader
use ypf_fleet_fuel_distribut.Nodes.Leader.Members as Members

abbrev KeepsQueue : Leader → Leader → Type 0
KeepsQueue l l' = (l'.is_offline ≡ l.is_offline) × (l'.offline_queue ≡ l.offline_queue)

-- Whether the node is offline after an event, and the charges of the station that the event adds to
-- those that wait.
abbrev offline_after : Bool → NodeEvent → Bool
offline_after offline (from_station StationToNodeMsg.disconnect_node) = true
offline_after offline (from_station StationToNodeMsg.connect_node) = false
offline_after offline _ = offline

abbrev accepted : Bool → NodeEvent → List Operation
accepted offline (from_station (StationToNodeMsg.charge_request account_id card_id amount _)) =
    if offline then Operation.charge account_id card_id amount true ∷ [] else []
accepted offline _ = []

after_error-KeepsQueue :
    (hash : SocketAddr → ℕ) (out : Outside) (l : Leader) (error : NodeError)
    → KeepsQueue l (after_error (leader_node hash) out l error).0
unfolding after_error Members.handle_connection_lost_with
after_error-KeepsQueue hash out l (connection_lost_with address) = (refl, refl)
after_error-KeepsQueue hash out l connection_lost = (refl, refl)
after_error-KeepsQueue hash out l connection_refused = (refl, refl)
after_error-KeepsQueue hash out l other_error = (refl, refl)

after_turn-KeepsQueue :
    (hash : SocketAddr → ℕ) (out : Outside) (turn : Turn Leader)
    → KeepsQueue turn.0 (after_turn (leader_node hash) out turn).0
unfolding after_turn
after_turn-KeepsQueue hash out (l, effects, returned no_change) = (refl, refl)
after_turn-KeepsQueue hash out (l, effects, returned promote_to_leader) = (refl, refl)
after_turn-KeepsQueue hash out (l, effects, returned (demote_to_replica addr)) = (refl, refl)
after_turn-KeepsQueue hash out (l, effects, panicked) = (refl, refl)
after_turn-KeepsQueue hash out (l, effects, failed) = after_error-KeepsQueue hash out l out.fault

start_election-KeepsQueue : (now : ℕ) (l : Leader) → KeepsQueue l (Members.start_election now l).0
unfolding Members.start_election
start_election-KeepsQueue now l = ground arith

handle_node_msg-KeepsQueue :
    (hash : SocketAddr → ℕ) (out : Outside) (l : Leader) (msg : Message)
    → KeepsQueue l (handle_node_msg (leader_node hash) out l msg).0
unfolding handle_node_msg OfLeader.handle_request OfLeader.handle_log OfLeader.handle_response
    OfLeader.handle_ack Members.handle_election Members.handle_election_ok
    Members.handle_coordinator Members.handle_join Members.handle_cluster_view
handle_node_msg-KeepsQueue hash out l (Message.request req_id op addr) = ground arith
handle_node_msg-KeepsQueue hash out l (Message.log op_id op) = (refl, refl)
handle_node_msg-KeepsQueue hash out l (Message.ack op_id) = ground arith
handle_node_msg-KeepsQueue hash out l (Message.election id addr) =
    ground (arith, start_election-KeepsQueue out.now l)
handle_node_msg-KeepsQueue hash out l (Message.election_ok id) = (refl, refl)
handle_node_msg-KeepsQueue hash out l (Message.coordinator id addr) = (refl, refl)
handle_node_msg-KeepsQueue hash out l (Message.join addr) = (refl, refl)
handle_node_msg-KeepsQueue hash out l (Message.cluster_view members addr database) =
    start_election-KeepsQueue out.now (record l { cluster = Members.members_map [] members })
handle_node_msg-KeepsQueue hash out l (Message.cluster_update new_member) = (refl, refl)
handle_node_msg-KeepsQueue hash out l (Message.response req_id op_result) = (refl, refl)
handle_node_msg-KeepsQueue hash out l (Message.role_query addr) = (refl, refl)
handle_node_msg-KeepsQueue hash out l (Message.role_response id role) = (refl, refl)

handle_actor_event-KeepsQueue :
    (hash : SocketAddr → ℕ) (out : Outside) (l : Leader) (event : ActorEvent)
    → KeepsQueue l (handle_actor_event (leader_node hash) out l event).0
unfolding handle_actor_event OfLeader.handle_operation_result
handle_actor_event-KeepsQueue hash out l (ActorEvent.operation_result op_id op result _ _) =
    ground arith
handle_actor_event-KeepsQueue hash out l ActorEvent.debug = (refl, refl)

timeout-KeepsQueue : (now : ℕ) (l : Leader) → KeepsQueue l (Members.handle_election_timeout now l).0
unfolding Members.handle_election_timeout
timeout-KeepsQueue now l = ground arith

-- The state of the queue after a turn.
abbrev IsQueued : Leader → NodeEvent → Leader → Type 0
IsQueued l event l' =
    (l'.is_offline ≡ offline_after l.is_offline event)
    × (l'.offline_queue ≡ l.offline_queue ++ accepted l.is_offline event)

nothing_added :
    {is is' : Bool} {queue queue' : List Operation}
    → (is' ≡ is) × (queue' ≡ queue)
    → (is' ≡ is) × (queue' ≡ queue ++ [])
nothing_added {is} {is'} {queue} (offline, kept) = (offline, kept ∙ sym (append-nil queue))

take_event-IsQueued :
    (hash : SocketAddr → ℕ) (out : Outside) (l : Leader) (event : NodeEvent)
    → IsQueued l event (take_event (leader_node hash) out l event).0
unfolding take_event handle_station_msg handle_charge_request Members.log_offline_operation
    OfLeader.handle_request Members.handle_disconnect_node Members.handle_connect_node
take_event-IsQueued hash out l (from_node msg) =
    nothing_added (handle_node_msg-KeepsQueue hash out l msg)
take_event-IsQueued hash out l (from_station (StationToNodeMsg.charge_request a c x id)) =
    ground (arith, append-nil l.offline_queue)
take_event-IsQueued hash out l (from_station StationToNodeMsg.disconnect_node) =
    (refl, sym (append-nil l.offline_queue))
take_event-IsQueued hash out l (from_station StationToNodeMsg.connect_node) =
    ground (arith, append-nil l.offline_queue)
take_event-IsQueued hash out l (from_database event) =
    nothing_added (handle_actor_event-KeepsQueue hash out l event)
take_event-IsQueued hash out l receive_failed = nothing_added (refl, refl)
take_event-IsQueued hash out l station_down = nothing_added (refl, refl)
take_event-IsQueued hash out l database_down = nothing_added (refl, refl)
take_event-IsQueued hash out l election_tick = nothing_added (timeout-KeepsQueue out.now l)

loop_turn-IsQueued :
    (hash : SocketAddr → ℕ) (out : Outside) (l : Leader) (event : NodeEvent)
    → IsQueued l event (loop_turn (leader_node hash) out l event).0
unfolding loop_turn
loop_turn-IsQueued hash out l event =
    let turn = take_event (leader_node hash) out l event in
    let (offline, queue) = take_event-IsQueued hash out l event in
    let (offline', queue') = after_turn-KeepsQueue hash out turn in
    (offline' ∙ offline, queue' ∙ queue)

-- The same over turns.
unfoldable pub offline_charges : Bool → List (Outside × NodeEvent) → List Operation
offline_charges offline [] = []
offline_charges offline ((_, event) ∷ turns) =
    accepted offline event ++ offline_charges (offline_after offline event) turns

-- A turn that the loop goes on from, and the rest.
run_goes_on :
    {S : Type 0} (n : Node S) (s : S) (out : Outside) (event : NodeEvent)
    (turns : List (Outside × NodeEvent))
    → (run n s ((out, event) ∷ turns)).2 ≡ goes_on
    → ((run n s ((out, event) ∷ turns)).0 ≡ (run n (loop_turn n out s event).0 turns).0)
      × ((run n (loop_turn n out s event).0 turns).2 ≡ goes_on)
unfolding run
run_goes_on n s out event turns h = ground arith

-- A leader that goes on through any turns keeps every charge that its station requests while it is
-- offline: in the end its queue is what waited before and then these charges, in order, each marked
-- as one of an offline station. Nothing takes one of them out.
pub leader_keeps_offline_charges :
    (hash : SocketAddr → ℕ) (l : Leader) (turns : List (Outside × NodeEvent))
    → (run (leader_node hash) l turns).2 ≡ goes_on
    → (run (leader_node hash) l turns).0.offline_queue
      ≡ l.offline_queue ++ offline_charges l.is_offline turns
unfolding offline_charges run
leader_keeps_offline_charges hash l [] on = sym (append-nil l.offline_queue)
leader_keeps_offline_charges hash l ((out, event) ∷ turns) on =
    let (same, on') = run_goes_on (leader_node hash) l out event turns on in
    let (offline, queue) = loop_turn-IsQueued hash out l event in
    let l' = (loop_turn (leader_node hash) out l event).0 in
    ap (λ x. x.offline_queue) same
    ∙ leader_keeps_offline_charges hash l' turns on'
    ∙ rw (queue, offline) (append_assoc l.offline_queue (accepted l.is_offline event) _)
