-- ===== src/Nodes/Replica/Members.antt =====
-- server/src/node/replica.rs: the members of the cluster, elections, and the offline mode.
use ypf_fleet_fuel_distribut.Nodes.Replica.{Replica, ends_by_sending, no_election}
use ypf_fleet_fuel_distribut.Prelude.{
  ℕ, ◌-◌, Bool, true, false, ◌&&◌, none, some, List, [], ◌∷◌, ◌++◌, ltb, leb, ◌==◌, if◌then◌else◌,
  HashMap, lookup, insert,
}
use ypf_fleet_fuel_distribut.Domain.{SocketAddr, Operation, DatabaseSnapshot, NodeRole, Message}
use ypf_fleet_fuel_distribut.Nodes.Effects.{
  no_change, promote_to_leader, NodeEffect, send, execute, disconnect, reconnect, Ending, returned,
  failed, panicked, same_addr, get_id_given_addr, send_each,
}
use ypf_fleet_fuel_distribut.Nodes.Leader.{peers_of}
use ypf_fleet_fuel_distribut.Nodes.Leader.Members.{values, higher_than, is_empty, members_map}

unfoldable pub log_offline_operation : Replica → Operation → Replica
log_offline_operation r op = record r { offline_queue = r.offline_queue ++ op ∷ [] }

unfoldable pub handle_disconnect_node : Replica → Replica × List NodeEffect
handle_disconnect_node r = (record r { is_offline = true }, disconnect ∷ [])

-- The loop over the members: `again` is the outcome of a second attempt, whose failure ends it.
unfoldable pub rejoin :
    (SocketAddr → Bool)
    → (SocketAddr → Bool)
    → SocketAddr
    → List SocketAddr
    → List NodeEffect × Ending
rejoin reaches again self [] = ([], returned no_change)
rejoin reaches again self (addr ∷ addrs) =
    let join = send (Message.join self) addr in
    let (rest, ending) = rejoin reaches again self addrs in
    if same_addr addr self
    then (rest, ending)
    else if reaches addr
    then (join ∷ [], returned no_change)
    else if again addr
    then (join ∷ join ∷ rest, ending)
    else (join ∷ join ∷ [], failed)

unfoldable pub handle_connect_node :
    (SocketAddr → Bool) → (SocketAddr → Bool) → Bool → Replica → Replica × List NodeEffect × Ending
unfolding rejoin
handle_connect_node reaches again reconnects r =
    let online : Replica = record r { is_offline = false } in
    let (joins, ending) = rejoin reaches again r.address (values r.cluster) in
    if reconnects then (online, reconnect ∷ joins, ending) else (online, reconnect ∷ [], failed)

unfoldable pub handle_coordinator : Replica → ℕ → SocketAddr → Replica × Ending
handle_coordinator r leader_id leader_addr =
    if leader_id == r.id
    then (no_election r, returned promote_to_leader)
    else if ltb leader_id r.id
    then (no_election r, panicked)
    else (record (no_election r) { leader_addr = leader_addr }, returned no_change)

unfoldable pub anounce_coordinator : Replica → Replica × List NodeEffect × Ending
unfolding handle_coordinator peers_of send_each
anounce_coordinator r =
    let (r', ending) = handle_coordinator r r.id r.address in
    (r', send_each (Message.coordinator r.id r.address) (peers_of r.id r.cluster), ending)

unfoldable pub start_election : ℕ → Replica → Replica × List NodeEffect × Ending
unfolding anounce_coordinator higher_than send_each
start_election now r =
    let higher = higher_than r.id r.cluster in
    if r.election_in_progress
    then (r, [], returned no_change)
    else if is_empty higher
    then anounce_coordinator (no_election r)
    else (
      record r { election_in_progress = true; election_start = some now },
      send_each (Message.election r.id r.address) higher,
      returned no_change,
    )

-- `retain(|_, addr| addr != lost)`
unfoldable pub retain_others : SocketAddr → HashMap SocketAddr → HashMap SocketAddr
retain_others lost [] = []
retain_others lost ((id, addr) ∷ members) =
    if same_addr addr lost
    then retain_others lost members
    else (id, addr) ∷ retain_others lost members

abbrev contains_key : ℕ → HashMap SocketAddr → Bool
contains_key k m = elim (lookup k m) [ none ↦ false | some addr ↦ true ]

unfoldable pub handle_connection_lost_with :
    (SocketAddr → ℕ) → ℕ → Replica → SocketAddr → Replica × List NodeEffect × Ending
unfolding get_id_given_addr retain_others start_election
handle_connection_lost_with hash now r lost =
    let kept : Replica =
      if contains_key (get_id_given_addr hash lost) r.cluster
      then record r { cluster = retain_others lost r.cluster }
      else r in
    if same_addr lost r.leader_addr then start_election now kept else (kept, [], returned no_change)

unfoldable pub handle_role_query :
    (SocketAddr → ℕ)
    → (SocketAddr → Bool)
    → Replica
    → SocketAddr
    → Replica × List NodeEffect × Ending
unfolding get_id_given_addr
handle_role_query hash reaches r addr =
    ends_by_sending reaches r
      (Message.role_response (get_id_given_addr hash r.address) NodeRole.replica) addr

unfoldable pub handle_election : ℕ → Replica → ℕ → SocketAddr → Replica × List NodeEffect × Ending
unfolding start_election
handle_election now r candidate_id candidate_addr =
    let (r', effects, ending) = start_election now r in
    if ltb candidate_id r.id
    then (r', send (Message.election_ok r.id) candidate_addr ∷ effects, ending)
    else (r, [], returned no_change)

unfoldable pub handle_election_ok : Replica → Replica
handle_election_ok r = no_election r

unfoldable pub handle_join :
    (SocketAddr → Bool) → Replica → SocketAddr → Replica × List NodeEffect × Ending
handle_join reaches r addr = ends_by_sending reaches r (Message.join addr) r.leader_addr

unfoldable pub handle_cluster_update : Replica → ℕ → SocketAddr → Replica
handle_cluster_update r id addr = record r { cluster = insert id addr r.cluster }

-- The role change of the election is dropped.
unfoldable pub handle_cluster_view :
    (SocketAddr → ℕ)
    → ℕ
    → Replica
    → List (ℕ × SocketAddr)
    → SocketAddr
    → DatabaseSnapshot
    → Replica × List NodeEffect × Ending
unfolding get_id_given_addr start_election
handle_cluster_view hash now r members leader_addr snapshot =
    let joined : Replica = record r {
      cluster = members_map [] members;
      leader_addr = leader_addr;
    } in
    let replace = execute 0 (Operation.replace_database snapshot) in
    let (r', effects, _) = start_election now joined in
    if ltb r.id (get_id_given_addr hash leader_addr)
    then (r', replace ∷ effects, returned no_change)
    else (joined, replace ∷ [], returned no_change)

unfoldable pub handle_election_timeout : ℕ → Replica → Replica × List NodeEffect × Ending
unfolding anounce_coordinator
handle_election_timeout now r = elim r.election_start [
  | none ↦ (r, [], returned no_change)
  | some start ↦
      if r.election_in_progress && leb 2000 (now - start)
      then anounce_coordinator (no_election r)
      else (r, [], returned no_change)
]
