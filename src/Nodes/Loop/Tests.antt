-- ===== src/Nodes/Loop/Tests.antt =====
-- A node in its loop: server/src/node/node.rs.
use ypf_fleet_fuel_distribut.Prelude.{◌+◌, ℕ, ◌≡◌, refl, true, false, none, [], ◌∷◌, List, arith}
use ypf_fleet_fuel_distribut.Domain.{
  SocketAddr, Operation, OperationResult, DatabaseSnapshot, Message,
}
use ypf_fleet_fuel_distribut.Station.{StationToNodeMsg}
use ypf_fleet_fuel_distribut.Nodes.Leader.{Leader}
use ypf_fleet_fuel_distribut.Nodes.Leader as OfLeader
use ypf_fleet_fuel_distribut.Nodes.Leader.Members as LeaderMembers
use ypf_fleet_fuel_distribut.Nodes.Replica.{into_replica}
use ypf_fleet_fuel_distribut.Nodes.Loop.{
  Outside, NodeEvent, from_node, from_station, goes_on, run, connection_lost, connection_lost_with,
  receive_failed,
}
use ypf_fleet_fuel_distribut.Nodes.Loop.Roles.{
  leader_node, leading, following, runs, runtime_turn, run_node_runtime,
}
use ypf_fleet_fuel_distribut.Nodes.Loop.Panics.{node_dies_iff, is_dead}
use ypf_fleet_fuel_distribut.Nodes.Loop.Queues.{leader_keeps_offline_charges, offline_charges}
use ypf_fleet_fuel_distribut.Nodes.Loop.Replays.{order_decides_replay, replays, replaced}

abbrev node : ℕ → SocketAddr
node k = SocketAddr.v4 127 0 0 1 (9000 + k)

-- The last number of an address.
abbrev hash : SocketAddr → ℕ
hash (SocketAddr.v4 _ _ _ _ port) = port
hash (SocketAddr.v6 _ port) = port

abbrev charge : ℕ → Operation
charge card_id = Operation.charge 7 card_id 0x42480000 true

-- Node 2 leads itself and node 1; a charge waits.
abbrev leader : Leader
leader = record {
  id = 2;
  current_op_id = 4;
  address = node 2;
  cluster = (1, node 1) ∷ (2, node 2) ∷ [];
  operations = [];
  is_offline = false;
  offline_queue = charge 1 ∷ [];
  election_in_progress = false;
  election_start = none;
}

abbrev calm : Outside
calm = record {
  reaches = λ addr. true;
  again = λ addr. true;
  accepts = λ k. true;
  reconnects = true;
  fault = connection_lost;
  now = 100;
}

-- Nothing is reached, and node 1 is lost.
abbrev broken : Outside
broken = record {
  reaches = λ addr. false;
  again = λ addr. false;
  accepts = λ k. false;
  reconnects = false;
  fault = connection_lost_with (node 1);
  now = 100;
}

abbrev requested : ℕ → NodeEvent
requested card_id = from_station (StationToNodeMsg.charge_request 7 card_id 0x42480000 3)

-- Two charges offline, and one after the node is back online.
abbrev outage : List (Outside × NodeEvent)
outage =
    (calm, from_station StationToNodeMsg.disconnect_node)
    ∷ (broken, requested 5)
    ∷ (broken, receive_failed)
    ∷ (broken, requested 6)
    ∷ (calm, from_station StationToNodeMsg.connect_node)
    ∷ (calm, requested 8)
    ∷ []

outage_goes_on : (run (leader_node hash) leader outage).2 ≡ goes_on
unfolding run OfLeader.handle_request LeaderMembers.handle_disconnect_node
    LeaderMembers.handle_connection_lost_with LeaderMembers.log_offline_operation
    LeaderMembers.handle_connect_node
outage_goes_on = refl

two_accepted : offline_charges false outage ≡ charge 5 ∷ charge 6 ∷ []
unfolding offline_charges
two_accepted = refl

leader_keeps_offline_charges_example :
    (run (leader_node hash) leader outage).0.offline_queue ≡ charge 1 ∷ offline_charges false outage
leader_keeps_offline_charges_example =
    leader_keeps_offline_charges hash leader outage outage_goes_on

node_dies_iff_example :
    is_dead (runtime_turn hash (leading leader) calm (from_node (Message.log 4 (charge 1)))).2
    ≡ true
node_dies_iff_example =
    node_dies_iff hash (leading leader) calm (from_node (Message.log 4 (charge 1)))

abbrev snapshot : DatabaseSnapshot
snapshot = record { addr = node 2; accounts = []; cards = [] }

abbrev told : NodeEvent
told = from_node (Message.coordinator 5 (node 5))

abbrev database_replaced : NodeEvent
database_replaced = replaced snapshot OperationResult.replace_database

order_decides_replay_example :
    (run_node_runtime hash (leading leader) ((calm, told) ∷ (calm, database_replaced) ∷ []) ≡ (
      following (record (into_replica leader (node 5)) { offline_queue = [] }),
      replays (node 5) (node 2) (charge 1 ∷ []),
      runs,
    ))
    × (run_node_runtime hash (leading leader) ((calm, database_replaced) ∷ (calm, told) ∷ [])
        ≡ (following (into_replica leader (node 5)), [], runs))
    × ((into_replica leader (node 5)).offline_queue ≡ charge 1 ∷ [])
order_decides_replay_example =
    order_decides_replay hash leader calm calm 5 (node 5) snapshot OperationResult.replace_database
      (omega arith) (λ k. refl)
