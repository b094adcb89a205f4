-- ===== src/Clients/Link/Steps.antt =====
-- Every step of a station and its client keeps each request in one place.
use mathlib.Core.Path.{subst}
use ypf_fleet_fuel_distribut.Prelude.{
  ℕ, ◌+◌, ◌≤◌, ◌≡◌, ◌∙◌, refl, Option, List, [], ◌∷◌, if◌then◌else◌, arith,
}
use ypf_fleet_fuel_distribut.Float.{F32}
use ypf_fleet_fuel_distribut.Domain.{SocketAddr}
use ypf_fleet_fuel_distribut.Text.{Text}
use ypf_fleet_fuel_distribut.Station.{StationToNodeMsg, NodeToStationMsg, Pumps, initial}
use ypf_fleet_fuel_distribut.Station.Simulator.{
  SimulatorEvent, StationOutput, node_event, continues, step,
}
use ypf_fleet_fuel_distribut.Station.Invariant.{IsConsistent}
use ypf_fleet_fuel_distribut.Station.Requests.{
  requested, asked, charges, IsSound, IsBalanced, is_result_of, not_result_of,
}
use ypf_fleet_fuel_distribut.Station.Steps.{step-IsSound}
use ypf_fleet_fuel_distribut.Station.Runs.{initial-IsConsistent}
use ypf_fleet_fuel_distribut.Clients.NodeClient.{new_client}
use ypf_fleet_fuel_distribut.Clients.Link.{sent_to_node, sent_to_station, Link, LinkStep, Reachable}
use ypf_fleet_fuel_distribut.Clients.Link.Places.{
  awaited, answered, IsLinked, IsAccounted, asked-append, answered-append, asked-sent_to_node,
  handle_station_msg-IsAccounted, handle_node_msg-IsAccounted,
}

module _ (read_amount : Text → Option F32) (hash : SocketAddr → ℕ) (n : ℕ) where
  -- A turn of the station.
  station_turn :
      (s t : Pumps) (event : SimulatorEvent) (outputs : List StationOutput)
      → IsConsistent n s
      → step read_amount n s event ≡ continues t outputs
      → IsConsistent n t × IsBalanced event s t (charges outputs)
  station_turn s t event outputs h e =
      let (agree, move, balance) =
        subst (IsSound n event s) e (step-IsSound read_amount n s event h) in
      (agree, balance)

  at_most_one : (j : ℕ) (s : Pumps) → requested j s ≤ 1
  at_most_one j s = ground arith

  asked_first :
      (j : ℕ) (msg : StationToNodeMsg) (rest : List StationToNodeMsg)
      → asked j (msg ∷ rest) ≡ asked j (msg ∷ []) + asked j rest
  asked_first j (StationToNodeMsg.charge_request a c m id) rest = omega arith
  asked_first j StationToNodeMsg.disconnect_node rest = omega arith
  asked_first j StationToNodeMsg.connect_node rest = omega arith

  heard_result :
      (j : ℕ) (msg : NodeToStationMsg) (rest : List NodeToStationMsg) (r : ℕ)
      → r ≤ 1
      → (other : ℕ) → r ≡ other + answered j (msg ∷ rest)
      → (if is_result_of j (node_event msg) then 0 else r) ≡ other + answered j rest
  heard_result j (NodeToStationMsg.charge_result id allowed error) rest r small other e =
      ground arith
  heard_result j NodeToStationMsg.debug rest r small other e = e

  step_IsLinked : (l m : Link) → LinkStep read_amount hash n l m → IsLinked n l → IsLinked n m
  step_IsLinked l _ (LinkStep.operator_acts event t outputs no_result e) h =
      let (agree, balance) = station_turn l.pumps t event outputs h.agree e in
      record {
        agree = agree;
        distinct = h.distinct;
        once = λ j. ground (
          arith,
          balance j,
          not_result_of event j no_result,
          h.once j,
          asked-append j l.requests (sent_to_node outputs),
          asked-sent_to_node j outputs,
        );
      }
  step_IsLinked l _ (LinkStep.station_hears msg rest t outputs first e) h =
      let (agree, balance) = station_turn l.pumps t (node_event msg) outputs h.agree e in
      record {
        agree = agree;
        distinct = h.distinct;
        once = λ j.
            let heard =
              heard_result j msg rest (requested j l.pumps) (at_most_one j l.pumps)
                (asked j l.requests + awaited j l.client) (h.once j ∙ rw first refl) in
            omega (
              arith,
              balance j,
              heard,
              asked-append j l.requests (sent_to_node outputs),
              asked-sent_to_node j outputs,
            );
      }
  step_IsLinked l _ (LinkStep.client_hears_station accepts msg rest r first e) h =
      let was : (j : ℕ)
          → requested j l.pumps
            ≡ asked j (msg ∷ []) + asked j rest + awaited j l.client + answered j l.results =
        λ j. h.once j ∙ rw (first, asked_first j msg rest) refl in
      let room : (j : ℕ) → awaited j l.client + asked j (msg ∷ []) ≤ 1 =
        λ j. omega (arith, was j, at_most_one j l.pumps) in
      let (distinct, accounted) =
        subst (IsAccounted l.client (msg ∷ [])) e
          (handle_station_msg-IsAccounted accepts l.client msg h.distinct room) in
      record {
        agree = h.agree;
        distinct = distinct;
        once = λ j.
            omega
              (arith, was j, accounted j, answered-append j l.results (sent_to_station r.effects));
      }
  step_IsLinked l _ (LinkStep.client_hears_node accepts msg r expected e) h =
      let (distinct, accounted) =
        subst (IsAccounted l.client []) e
          (handle_node_msg-IsAccounted hash accepts l.client msg h.distinct expected) in
      record {
        agree = h.agree;
        distinct = distinct;
        once = λ j.
            omega (
              arith,
              h.once j,
              accounted j,
              answered-append j l.results (sent_to_station r.effects),
            );
      }

  start_IsLinked :
      (addr : SocketAddr) (nodes : List SocketAddr)
      → IsLinked n (record {
        pumps = initial n;
        client = new_client addr nodes;
        requests = [];
        results = [];
      })
  unfolding initial new_client
  start_IsLinked addr nodes = record {
    agree = initial-IsConsistent n;
    distinct = tt;
    once = λ j. refl;
  }

  reachable_IsLinked :
      (addr : SocketAddr) (nodes : List SocketAddr) (l : Link)
      → Reachable read_amount hash n addr nodes l
      → IsLinked n l
  reachable_IsLinked addr nodes _ Reachable.start = start_IsLinked addr nodes
  reachable_IsLinked addr nodes _ (Reachable.after l m steps last) =
      step_IsLinked l m last (reachable_IsLinked addr nodes l steps)

  -- However the operator, the station, the client and the cluster take turns, and whatever sends fail:
  -- each request of a pump that is open is once in the channel to the client, or tracked by the client,
  -- or once in the channel back as its result, and in one of these places only; no other id is in any
  -- of them. So no request is lost between station and client, and none is answered twice. The station
  -- takes messages, and responses to tracked ids are results of charges.
  pub each_request_in_one_place :
      (addr : SocketAddr) (nodes : List SocketAddr) (l : Link)
      → Reachable read_amount hash n addr nodes l
      → (j : ℕ)
      → requested j l.pumps ≡ asked j l.requests + awaited j l.client + answered j l.results
  each_request_in_one_place addr nodes l steps j = (reachable_IsLinked addr nodes l steps).once j
