-- ===== src/Nodes/Start.antt =====
-- How a node starts: Leader::start in server/src/node/leader.rs, Replica::start in
-- server/src/node/replica.rs, and `run` of server/src/main.rs. The database, the station and the
-- connection have started; the coordinates and the sizes of buffers are left out.
use ypf_fleet_fuel_distribut.Prelude.{ℕ, false, Option, none, some, List, [], ◌∷◌}
use ypf_fleet_fuel_distribut.Domain.{SocketAddr, Message}
use ypf_fleet_fuel_distribut.Nodes.Effects.{NodeEffect, send, get_id_given_addr}
use ypf_fleet_fuel_distribut.Nodes.Leader.{Leader}
use ypf_fleet_fuel_distribut.Nodes.Replica.{Replica}
use ypf_fleet_fuel_distribut.Nodes.Loop.{Outside, NodeEvent}
use ypf_fleet_fuel_distribut.Nodes.Loop.Roles.{
  NodeRuntime, leading, following, RuntimeCourse, run_node_runtime,
}

abbrev pub NodeRun : Type 0
NodeRun = NodeRuntime × List NodeEffect × RuntimeCourse

-- The leader of a cluster of its own.
unfoldable new_leader : (SocketAddr → ℕ) → SocketAddr → Leader
unfolding get_id_given_addr
new_leader hash address = record {
  id = get_id_given_addr hash address;
  current_op_id = 1;
  address = address;
  cluster = (get_id_given_addr hash address, address) ∷ [];
  operations = [];
  is_offline = false;
  offline_queue = [];
  election_in_progress = false;
  election_start = none;
}

unfoldable start_leader : (SocketAddr → ℕ) → SocketAddr → List (Outside × NodeEvent) → NodeRun
unfolding new_leader
start_leader hash address turns = run_node_runtime hash (leading (new_leader hash address)) turns

-- A replica that knows its leader only.
unfoldable pub new_replica : (SocketAddr → ℕ) → SocketAddr → (leader_addr : SocketAddr) → Replica
unfolding get_id_given_addr
new_replica hash address leader_addr = record {
  id = get_id_given_addr hash address;
  address = address;
  leader_addr = leader_addr;
  cluster = (get_id_given_addr hash leader_addr, leader_addr) ∷ [];
  operations = [];
  is_offline = false;
  offline_queue = [];
  election_in_progress = false;
  election_start = none;
}

-- The failure of the first send is ignored.
unfoldable start_replica :
    (SocketAddr → ℕ)
    → SocketAddr
    → (leader_addr : SocketAddr) → List (Outside × NodeEvent)
    → NodeRun
unfolding new_replica
start_replica hash address leader_addr turns =
    let replica = new_replica hash address leader_addr in
    let (node, effects, course) = run_node_runtime hash (following replica) turns in
    (node, send (Message.join address) leader_addr ∷ effects, course)

pub data RoleArgs : Type 0 where
  station : (leader_addr : SocketAddr) → RoleArgs
  leader : RoleArgs
  replica : (leader_addr : SocketAddr) → RoleArgs

-- The role of a station is `todo!()`: it panics.
unfoldable pub run_server :
    (SocketAddr → ℕ) → SocketAddr → RoleArgs → List (Outside × NodeEvent) → Option NodeRun
unfolding start_leader start_replica
run_server hash address leader turns = some (start_leader hash address turns)
run_server hash address (replica leader_addr) turns =
    some (start_replica hash address leader_addr turns)
run_server hash address (station _) turns = none
