-- ===== src/Clients/Link.antt =====
-- A station and its client: common/src/station.rs and client/src/node_client/node_client.rs, joined by
-- the two channels of `Station`. The station takes messages, and the cluster answers a charge with the
-- result of a charge.
pub mod Places
pub mod Steps
mod Tests
use ypf_fleet_fuel_distribut.Prelude.{ℕ, ◌≡◌, Bool, true, false, Option, List, [], ◌∷◌, ◌++◌}
use ypf_fleet_fuel_distribut.Float.{F32}
use ypf_fleet_fuel_distribut.Domain.{SocketAddr, Message, OperationResult}
use ypf_fleet_fuel_distribut.Text.{Text}
use ypf_fleet_fuel_distribut.Station.{StationToNodeMsg, NodeToStationMsg, Pumps, initial}
use ypf_fleet_fuel_distribut.Station.Simulator.{
  SimulatorEvent, node_event, StationOutput, to_node, print, continues, step,
}
use ypf_fleet_fuel_distribut.Station.Requests.{is_result}
use ypf_fleet_fuel_distribut.Clients.NodeClient.{
  NodeClient, ClientEffect, delivered, undelivered, to_station, Handled, new_client,
}
use ypf_fleet_fuel_distribut.Clients.NodeClient.Handlers.{handle_station_msg, handle_node_msg}

-- The messages that a station sends, and those that a client sends it.
abbrev pub sent_to_node : List StationOutput → List StationToNodeMsg
sent_to_node [] = []
sent_to_node (to_node msg ∷ outputs) = msg ∷ sent_to_node outputs
sent_to_node (print notice ∷ outputs) = sent_to_node outputs

abbrev pub sent_to_station : List ClientEffect → List NodeToStationMsg
sent_to_station [] = []
sent_to_station (to_station msg ∷ effects) = msg ∷ sent_to_station effects
sent_to_station (delivered msg addr ∷ effects) = sent_to_station effects
sent_to_station (undelivered msg addr ∷ effects) = sent_to_station effects

pub record Link : Type 0 where
  pub pumps : Pumps
  pub client : NodeClient
  -- the channels, the oldest message first
  pub requests : List StationToNodeMsg
  pub results : List NodeToStationMsg

-- Whether the message is one that the cluster sends to a client: no response, or one to a charge.
abbrev pub is_expected : Message → Bool
is_expected (Message.response id (OperationResult.charge result)) = true
is_expected (Message.response id other) = false
is_expected other = true

pub data LinkStep (read_amount : Text → Option F32) (hash : SocketAddr → ℕ) (n : ℕ) (l : Link)
    : Link → Type 0 where
  -- the operator types a line, or the line cannot be read
  operator_acts :
      (event : SimulatorEvent) (t : Pumps) (outputs : List StationOutput)
      → is_result event ≡ false
      → step read_amount n l.pumps event ≡ continues t outputs
      → LinkStep read_amount hash n l
          (record l { pumps = t; requests = l.requests ++ sent_to_node outputs })
  -- the station takes the client's oldest message
  station_hears :
      (msg : NodeToStationMsg) (rest : List NodeToStationMsg) (t : Pumps)
      (outputs : List StationOutput)
      → l.results ≡ msg ∷ rest
      → step read_amount n l.pumps (node_event msg) ≡ continues t outputs
      → LinkStep read_amount hash n l
          (record l { pumps = t; requests = l.requests ++ sent_to_node outputs; results = rest })
  -- the client takes the station's oldest message
  client_hears_station :
      (accepts : ℕ → Bool) (msg : StationToNodeMsg) (rest : List StationToNodeMsg) (r : Handled)
      → l.requests ≡ msg ∷ rest
      → handle_station_msg accepts true l.client msg ≡ r
      → LinkStep read_amount hash n l (record l {
        client = r.client;
        requests = rest;
        results = l.results ++ sent_to_station r.effects;
      })
  -- the client gets a message from the cluster
  client_hears_node :
      (accepts : ℕ → Bool) (msg : Message) (r : Handled)
      → is_expected msg ≡ true
      → handle_node_msg hash accepts true l.client msg ≡ r
      → LinkStep read_amount hash n l
          (record l { client = r.client; results = l.results ++ sent_to_station r.effects })

-- One step after the other, from a station whose pumps are idle and a client with known nodes.
pub data Reachable (read_amount : Text → Option F32) (hash : SocketAddr → ℕ) (n : ℕ)
    (addr : SocketAddr) (nodes : List SocketAddr) : Link → Type 0 where
  start :
      Reachable read_amount hash n addr nodes
        (record { pumps = initial n; client = new_client addr nodes; requests = []; results = [] })
  after :
      (l m : Link)
      → Reachable read_amount hash n addr nodes l
      → LinkStep read_amount hash n l m
      → Reachable read_amount hash n addr nodes m
