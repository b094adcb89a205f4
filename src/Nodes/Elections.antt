-- ===== src/Nodes/Elections.antt =====
-- Elections among leader and replicas: server/src/node/leader.rs, replica.rs and node.rs.
use ypf_fleet_fuel_distribut.Prelude.{
  Bool, ℕ, ◌<◌, ◌≤◌, ◌≡◌, refl, true, false, some, List, [], ◌∷◌, arith, All, HashMap, lookup,
}
use ypf_fleet_fuel_distribut.Domain.{SocketAddr, Message}
use ypf_fleet_fuel_distribut.Nodes.Effects.{
  send_each, same_addr, get_id_given_addr, returned, promote_to_leader,
}
use ypf_fleet_fuel_distribut.Nodes.Leader.{peers_of}
use ypf_fleet_fuel_distribut.Nodes.Leader.Members.{higher_than}
use ypf_fleet_fuel_distribut.Nodes.Replica.{Replica, into_leader, no_election}
use ypf_fleet_fuel_distribut.Nodes.Replica.Members.{
  start_election, anounce_coordinator, handle_coordinator, handle_connection_lost_with,
  retain_others,
}
use ypf_fleet_fuel_distribut.Nodes.Loop.{
  Outside, NodeEvent, from_node, receive_failed, connection_lost_with, take_event, after_turn,
  after_error, loop_turn, handle_node_msg,
}
use ypf_fleet_fuel_distribut.Nodes.Loop.Roles.{
  NodeRuntime, leading, following, runs, runtime_turn, run_node_runtime, change_role,
}
use ypf_fleet_fuel_distribut.Nodes.Loop.Replays.{demoted_by_coordinator}
use ypf_fleet_fuel_distribut.Nodes.Requests.{received, received_once, times}

abbrev pub id_of : NodeRuntime → ℕ
id_of (leading l) = l.id
id_of (following r) = r.id

abbrev pub address_of : NodeRuntime → SocketAddr
address_of (leading l) = l.address
address_of (following r) = r.address

-- Whom a node takes for the leader.
abbrev pub leader_of : NodeRuntime → SocketAddr
leader_of (leading l) = l.address
leader_of (following r) = r.leader_addr

abbrev pub is_replica : NodeRuntime → Bool
is_replica (leading l) = false
is_replica (following r) = true

-- Messages that a node takes in turn.
abbrev pub deliver : Outside → List Message → List (Outside × NodeEvent)
deliver out [] = []
deliver out (m ∷ ms) = (out, from_node m) ∷ deliver out ms

-- No member at another address has a higher id.
abbrev pub OthersLower : ℕ → SocketAddr → HashMap SocketAddr → Type 0
OthersLower id lost members =
    All (λ (m : ℕ × SocketAddr). same_addr m.1 lost ≡ false → m.0 ≤ id) members

same_addr_refl : (addr : SocketAddr) → same_addr addr addr ≡ true
same_addr_refl (SocketAddr.v4 a b c d port) = ground arith
same_addr_refl (SocketAddr.v6 ip port) = ground arith

none_higher :
    (id : ℕ) (lost : SocketAddr) (members : HashMap SocketAddr)
    → OthersLower id lost members
    → higher_than id (retain_others lost members) ≡ []
unfolding higher_than retain_others
none_higher id lost [] lower = refl
none_higher id lost ((k, addr) ∷ members) lower =
    ground (arith, lower.0, none_higher id lost members lower.1)

-- The replica that takes over.
abbrev pub without_leader : Replica → Replica
without_leader r = record r { cluster = retain_others r.leader_addr r.cluster }

election_won :
    (now : ℕ) (r : Replica)
    → r.election_in_progress ≡ false
    → higher_than r.id r.cluster ≡ []
    → start_election now r ≡ (
      no_election r,
      send_each (Message.coordinator r.id r.address) (peers_of r.id r.cluster),
      returned promote_to_leader,
    )
unfolding start_election anounce_coordinator handle_coordinator
election_won now r idle none_ = ground (arith, idle, none_)

loss_handled :
    (hash : SocketAddr → ℕ) (now : ℕ) (r : Replica)
    → lookup (get_id_given_addr hash r.leader_addr) r.cluster ≡ some r.leader_addr
    → handle_connection_lost_with hash now r r.leader_addr ≡ start_election now (without_leader r)
unfolding handle_connection_lost_with
loss_handled hash now r known = ground (arith, known, same_addr_refl r.leader_addr)

-- A replica that loses its leader, and knows no other member with a higher id.
pub leader_lost :
    (hash : SocketAddr → ℕ) (r : Replica) (out : Outside)
    → r.election_in_progress ≡ false
    → out.fault ≡ connection_lost_with r.leader_addr
    → lookup (get_id_given_addr hash r.leader_addr) r.cluster ≡ some r.leader_addr
    → OthersLower r.id r.leader_addr r.cluster
    → runtime_turn hash (following r) out receive_failed ≡ (
      leading (into_leader (without_leader r)),
      send_each (Message.coordinator r.id r.address) (peers_of r.id (without_leader r).cluster),
      runs,
    )
unfolding runtime_turn loop_turn take_event after_turn after_error change_role into_leader
leader_lost hash r out idle fault known lower =
    rw
      (
        fault,
        loss_handled hash out.now r known,
        election_won out.now (without_leader r) idle
            (none_higher r.id r.leader_addr r.cluster lower),
      )
      refl

coordinator_followed :
    (hash : SocketAddr → ℕ) (other : NodeRuntime) (out : Outside) (id : ℕ) (addr : SocketAddr)
    → id_of other < id
    → let (node, _, course) =
        runtime_turn hash other out (from_node (Message.coordinator id addr)) in
      (is_replica node ≡ true) × (leader_of node ≡ addr) × (course ≡ runs)
unfolding runtime_turn loop_turn take_event after_turn handle_node_msg handle_coordinator
coordinator_followed hash (leading l) out id addr lower =
    rw (demoted_by_coordinator hash out l id addr (omega arith)) (refl, refl, refl)
coordinator_followed hash (following r) out id addr lower = ground arith

followed_at_once :
    (hash : SocketAddr → ℕ) (other : NodeRuntime) (out : Outside) (id : ℕ) (addr : SocketAddr)
    → id_of other < id
    → let (node, _, course) =
        run_node_runtime hash other ((out, from_node (Message.coordinator id addr)) ∷ []) in
      (is_replica node ≡ true) × (leader_of node ≡ addr) × (course ≡ runs)
unfolding run_node_runtime
followed_at_once hash other out id addr lower =
    ground (arith, coordinator_followed hash other out id addr lower)

-- A replica notices that its leader is lost: the connection reports it. It has no election under way, the
-- leader is a member under its own id, and no other member has a higher id than the replica. Then
-- it becomes the leader in this turn, with the members but the lost leader, and goes on. What it
-- sends brings each other node with a lower id whose address is once among the members, replica or
-- leader, exactly one message; when the node has taken it, it is a replica of the new leader, and goes
-- on.
pub highest_becomes_leader :
    (hash : SocketAddr → ℕ) (r : Replica) (other : NodeRuntime) (out later : Outside)
    → r.election_in_progress ≡ false
    → out.fault ≡ connection_lost_with r.leader_addr
    → lookup (get_id_given_addr hash r.leader_addr) r.cluster ≡ some r.leader_addr
    → OthersLower r.id r.leader_addr r.cluster
    → id_of other < r.id
    → times (address_of other) (peers_of r.id (without_leader r).cluster) ≡ 1
    → let (node, sent, course) = runtime_turn hash (following r) out receive_failed in
      let messages = received (address_of other) sent in
      let (other', _, course') = run_node_runtime hash other (deliver later messages) in
      (node ≡ leading (into_leader (without_leader r)))
      × (leader_of node ≡ r.address)
      × (course ≡ runs)
      × (messages ≡ Message.coordinator r.id r.address ∷ [])
      × (is_replica other' ≡ true)
      × (leader_of other' ≡ r.address)
      × (course' ≡ runs)
unfolding into_leader
highest_becomes_leader hash r other out later idle fault known lower below once =
    let followed = followed_at_once hash other later r.id r.address below in
    rw
      (
        leader_lost hash r out idle fault known lower,
        received_once (address_of other) (Message.coordinator r.id r.address)
            (peers_of r.id (without_leader r).cluster) once,
      )
      (refl, refl, refl, refl, followed.0, followed.1, followed.2)
