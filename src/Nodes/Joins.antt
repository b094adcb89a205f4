-- ===== src/Nodes/Joins.antt =====
-- How a node joins a cluster: server/src/node/leader.rs and replica.rs.
use ypf_fleet_fuel_distribut.Prelude.{
  ℕ, Bool, true, Option, none, some, [], ◌∷◌, ◌≡◌, ◌∙◌, refl, ap, arith, HashMap, lookup, insert,
  lookup-insert, lookup-insert_self, IsMap, IsMap-insert,
}
use ypf_fleet_fuel_distribut.Domain.{
  SocketAddr, Operation, OperationResult, DatabaseSnapshot, Message,
}
use ypf_fleet_fuel_distribut.Nodes.Effects.{send, get_id_given_addr}
use ypf_fleet_fuel_distribut.Nodes.Leader.{Leader}
use ypf_fleet_fuel_distribut.Nodes.Leader as OfLeader
use ypf_fleet_fuel_distribut.Nodes.Leader.Members.{members_map, handle_join}
use ypf_fleet_fuel_distribut.Nodes.Replica.{Replica}
use ypf_fleet_fuel_distribut.Nodes.Replica.Members.{
  start_election, anounce_coordinator, handle_coordinator, handle_cluster_update,
  handle_cluster_view,
}

-- The same entries, in any order.
abbrev pub Agree : HashMap SocketAddr → HashMap SocketAddr → Type 0
Agree m m' = (k : ℕ) → lookup k m ≡ lookup k m'

abbrev first_of : Option SocketAddr → Option SocketAddr → Option SocketAddr
first_of (some addr) other = some addr
first_of none other = other

first_of_absent : (found : Option SocketAddr) → first_of found none ≡ found
first_of_absent none = refl
first_of_absent (some addr) = refl

lookup-members_map :
    (k : ℕ) (acc m : HashMap SocketAddr)
    → IsMap m
    → lookup k (members_map acc m) ≡ first_of (lookup k m) (lookup k acc)
lookup-members_map k acc [] h = refl
lookup-members_map k acc ((id, addr) ∷ m) h =
    ground
      (arith, lookup-members_map k (insert id addr acc) m h.1, lookup-insert k id addr acc, h.0)

members_map-Agree : (m : HashMap SocketAddr) → IsMap m → Agree (members_map [] m) m
members_map-Agree m h k = lookup-members_map k [] m h ∙ first_of_absent (lookup k m)

insert-Agree :
    (id : ℕ) (addr : SocketAddr) (m m' : HashMap SocketAddr)
    → Agree m m'
    → Agree (insert id addr m) (insert id addr m')
insert-Agree id addr m m' same k =
    ground (arith, lookup-insert k id addr m, lookup-insert k id addr m', same k)

start_election_keeps_view :
    (now : ℕ) (r : Replica)
    → ((start_election now r).0.cluster ≡ r.cluster)
      × ((start_election now r).0.leader_addr ≡ r.leader_addr)
unfolding start_election anounce_coordinator handle_coordinator
start_election_keeps_view now r = ground arith

view_taken :
    (hash : SocketAddr → ℕ) (now : ℕ) (r : Replica) (members : HashMap SocketAddr)
    (leader_addr : SocketAddr) (snapshot : DatabaseSnapshot)
    → let r' = (handle_cluster_view hash now r members leader_addr snapshot).0 in
      (r'.cluster ≡ members_map [] members) × (r'.leader_addr ≡ leader_addr)
unfolding handle_cluster_view
view_taken hash now r members leader_addr snapshot = ground (
  arith,
  start_election_keeps_view now
      (record r { cluster = members_map [] members; leader_addr = leader_addr }),
)

view_sent :
    (reaches again : SocketAddr → Bool) (l : Leader) (addr : SocketAddr)
    (snapshot : DatabaseSnapshot)
    → reaches addr ≡ true
    → let (l', sent, _) =
        OfLeader.handle_operation_result reaches again l 0
          (Operation.get_database addr)
          (OperationResult.database_snapshot snapshot) in
      (l' ≡ l) × (sent ≡ send (Message.cluster_view l.cluster l.address snapshot) addr ∷ [])
unfolding OfLeader.handle_operation_result OfLeader.answer OfLeader.answer_join
view_sent reaches again l addr snapshot reached = ground arith

-- A node joins: the leader takes it into its cluster and, when the snapshot is there, sends it its view
-- of the cluster, which reaches it. Then the node knows exactly the members that the leader knows,
-- itself included, and has that leader; and a replica that knew the members of the leader
-- before knows them again once it has the update. The members of the leader have different ids.
pub join_agrees :
    (hash : SocketAddr → ℕ) (reaches again : SocketAddr → Bool) (now : ℕ) (l : Leader)
    (joining other : Replica) (snapshot : DatabaseSnapshot)
    → IsMap l.cluster
    → Agree other.cluster l.cluster
    → reaches joining.address ≡ true
    → let addr = joining.address in
      let id = get_id_given_addr hash addr in
      let l' = (handle_join hash reaches l addr).0 in
      let (l'', view, _) =
        OfLeader.handle_operation_result reaches again l' 0
          (Operation.get_database addr)
          (OperationResult.database_snapshot snapshot) in
      let joined = (handle_cluster_view hash now joining l''.cluster l.address snapshot).0 in
      (view ≡ send (Message.cluster_view l''.cluster l.address snapshot) addr ∷ [])
      × (lookup id l''.cluster ≡ some addr)
      × Agree joined.cluster l''.cluster
      × (joined.leader_addr ≡ l.address)
      × Agree (handle_cluster_update other id addr).cluster l''.cluster
unfolding handle_join handle_cluster_update
join_agrees hash reaches again now l joining other snapshot map same reached =
    let addr = joining.address in
    let id = get_id_given_addr hash addr in
    let l' : Leader = record l { cluster = insert id addr l.cluster } in
    let taken = view_taken hash now joining l'.cluster l.address snapshot in
    let sent = view_sent reaches again l' addr snapshot reached in
    rw sent.0 (
      sent.1,
      lookup-insert_self id addr l.cluster,
      λ k.
          ap (lookup k) taken.0
          ∙ members_map-Agree l'.cluster (IsMap-insert id addr l.cluster map) k,
      taken.1,
      insert-Agree id addr other.cluster l.cluster same,
    )
