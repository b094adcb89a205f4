-- ===== src/Nodes/Leader/Members.antt =====
-- server/src/node/leader.rs: the members of the cluster, elections, and the offline mode.
use ypf_fleet_fuel_distribut.Prelude.{
  ℕ, ◌-◌, Bool, true, false, ◌&&◌, ◌||◌, none, some, List, [], ◌∷◌, ◌++◌, ltb, leb, if◌then◌else◌,
  HashMap, insert, erase,
}
use ypf_fleet_fuel_distribut.Domain.{SocketAddr, Operation, DatabaseSnapshot, NodeRole, Message}
use ypf_fleet_fuel_distribut.Nodes.Effects.{
  RoleChange, no_change, demote_to_replica, NodeEffect, send, execute, disconnect, reconnect,
  Ending, returned, failed, same_addr, get_id_given_addr, send_all, send_each,
}
use ypf_fleet_fuel_distribut.Nodes.Leader.{Leader, peers_of}

unfoldable pub log_offline_operation : Leader → Operation → Leader
log_offline_operation l op = record l { offline_queue = l.offline_queue ++ op ∷ [] }

unfoldable pub handle_disconnect_node : Leader → Leader × List NodeEffect
handle_disconnect_node l = (record l { is_offline = true }, disconnect ∷ [])

abbrev pub values : HashMap SocketAddr → List SocketAddr
values [] = []
values ((k, v) ∷ m) = v ∷ values m

-- The loop over the members: the first join that is sent ends it, a failed one is sent once more.
unfoldable pub rejoin : (SocketAddr → Bool) → SocketAddr → List SocketAddr → List NodeEffect
rejoin reaches self [] = []
rejoin reaches self (addr ∷ addrs) =
    let rest = rejoin reaches self addrs in
    if same_addr addr self
    then rest
    else if reaches addr
    then send (Message.join self) addr ∷ []
    else send (Message.join self) addr ∷ send (Message.join self) addr ∷ rest

-- `reconnects` tells whether `connection.reconnect()` succeeds.
unfoldable pub handle_connect_node :
    (SocketAddr → Bool) → Bool → Leader → Leader × List NodeEffect × Ending
unfolding rejoin
handle_connect_node reaches reconnects l =
    let online : Leader = record l { is_offline = false } in
    if reconnects
    then (online, reconnect ∷ rejoin reaches l.address (values l.cluster), returned no_change)
    else (online, reconnect ∷ [], failed)

-- The addresses of the members with another id.
unfoldable pub anounce_coordinator : Leader → List NodeEffect
unfolding peers_of send_each
anounce_coordinator l = send_each (Message.coordinator l.id l.address) (peers_of l.id l.cluster)

unfoldable pub handle_connection_lost_with : (SocketAddr → ℕ) → Leader → SocketAddr → Leader
unfolding get_id_given_addr
handle_connection_lost_with hash l address = record l {
  cluster = erase (get_id_given_addr hash address) l.cluster;
}

unfoldable pub handle_role_query :
    (SocketAddr → ℕ) → (SocketAddr → Bool) → Leader → SocketAddr → List NodeEffect × Ending
unfolding get_id_given_addr
handle_role_query hash reaches l addr = (
  send (Message.role_response (get_id_given_addr hash l.address) NodeRole.leader) addr ∷ [],
  if reaches addr then returned no_change else failed,
)

-- The members with a higher id, in the order of the map.
unfoldable pub higher_than : ℕ → HashMap SocketAddr → List SocketAddr
higher_than id [] = []
higher_than id ((node_id, addr) ∷ members) =
    if ltb id node_id then addr ∷ higher_than id members else higher_than id members

abbrev pub is_empty : List SocketAddr → Bool
is_empty [] = true
is_empty (addr ∷ addrs) = false

unfoldable pub start_election : ℕ → Leader → Leader × List NodeEffect
unfolding higher_than send_each anounce_coordinator
start_election now l =
    let higher = higher_than l.id l.cluster in
    if l.election_in_progress
    then (l, [])
    else if is_empty higher
    then (record l { election_in_progress = false; election_start = none }, anounce_coordinator l)
    else (
      record l { election_in_progress = true; election_start = some now },
      send_each (Message.election l.id l.address) higher,
    )

unfoldable pub handle_election : ℕ → Leader → ℕ → SocketAddr → Leader × List NodeEffect
unfolding start_election
handle_election now l candidate_id candidate_addr =
    let (l', effects) = start_election now l in
    if ltb candidate_id l.id
    then (l', send (Message.election_ok l.id) candidate_addr ∷ effects)
    else (l, [])

unfoldable pub handle_election_ok : Leader → Leader
handle_election_ok l = record l { election_in_progress = false; election_start = none }

unfoldable pub handle_coordinator : Leader → ℕ → SocketAddr → Leader × RoleChange
handle_coordinator l leader_id leader_addr = (
  record l { election_in_progress = false; election_start = none },
  if leb l.id leader_id then demote_to_replica leader_addr else no_change,
)

-- The members that are told of a new one: neither the leader nor the new one.
unfoldable pub informed : SocketAddr → SocketAddr → List SocketAddr → List SocketAddr
informed self addr [] = []
informed self addr (a ∷ as') =
    if same_addr a self || same_addr a addr
    then informed self addr as'
    else a ∷ informed self addr as'

unfoldable pub handle_join :
    (SocketAddr → ℕ) → (SocketAddr → Bool) → Leader → SocketAddr → Leader × List NodeEffect × Ending
unfolding get_id_given_addr informed send_all
handle_join hash reaches l addr =
    let node_id = get_id_given_addr hash addr in
    let joined : Leader = record l { cluster = insert node_id addr l.cluster } in
    let (updates, sent) =
      send_all reaches (Message.cluster_update (node_id, addr))
        (informed l.address addr (values joined.cluster)) in
    (
      joined,
      execute 0 (Operation.get_database addr) ∷ updates,
      if sent then returned no_change else failed,
    )

-- `cluster.clear()` and the insertions.
abbrev pub members_map : HashMap SocketAddr → List (ℕ × SocketAddr) → HashMap SocketAddr
members_map m [] = m
members_map m ((id, addr) ∷ members) = members_map (insert id addr m) members

unfoldable pub handle_cluster_view :
    ℕ → Leader → List (ℕ × SocketAddr) → DatabaseSnapshot → Leader × List NodeEffect
unfolding start_election
handle_cluster_view now l members snapshot =
    let (l', effects) = start_election now (record l { cluster = members_map [] members }) in
    (l', execute 0 (Operation.replace_database snapshot) ∷ effects)

-- Two seconds.
abbrev election_timeout : ℕ
election_timeout = 2000

unfoldable pub handle_election_timeout : ℕ → Leader → Leader × List NodeEffect
unfolding anounce_coordinator
handle_election_timeout now l = elim l.election_start [
  | none ↦ (l, [])
  | some start ↦
      if l.election_in_progress && leb election_timeout (now - start)
      then (record l { election_in_progress = false; election_start = none }, anounce_coordinator l)
      else (l, [])
]
