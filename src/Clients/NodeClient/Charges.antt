-- ===== src/Clients/NodeClient/Charges.antt =====
-- A charge of a pump at client/src/node_client/node_client.rs.
use mathlib.Core.List.{Mem, mem-cons_self, mem-cons_of_mem}
use ypf_fleet_fuel_distribut.Prelude.{
  ℕ, ◌+◌, ◌≡◌, refl, inl, inr, Bool-cases, Bool, true, false, ◌&&◌, ◌||◌, none, List, [], ◌∷◌, ◌++◌,
  if◌then◌else◌, arith,
}
use ypf_fleet_fuel_distribut.Domain.{SocketAddr, Message}
use ypf_fleet_fuel_distribut.Station.{NodeToStationMsg}
use ypf_fleet_fuel_distribut.Clients.NodeClient.{
  QueuedCharge, NodeClient, ClientEffect, to_station, Handled, track, charge_of, try_nodes,
  enqueue_offline_charge, forward_online_charge, forward_or_enqueue_charge,
}
use ypf_fleet_fuel_distribut.Clients.NodeClient.Effects.{
  deliveries, answers, deliveries-append, answers-append,
}

-- Whether one of the sends from the k-th on, one for each node, succeeds.
abbrev pub is_reached : (ℕ → Bool) → ℕ → List SocketAddr → Bool
is_reached accepts k [] = false
is_reached accepts k (target ∷ targets) = accepts k || is_reached accepts (k + 1) targets

-- What becomes of a charge under a request id.
pub data ChargeFate (accepts : ℕ → Bool) (c : NodeClient) (queued : QueuedCharge) (id : ℕ)
    (r : Handled) : Type 0 where
  -- one known node has the request, and the client waits for its response
  forwarded :
      (target : SocketAddr)
      → (c.online && is_reached accepts 0 c.known_nodes) ≡ true
      → Mem target c.known_nodes
      → deliveries r.effects
        ≡ (Message.request id (charge_of queued false) c.bind_addr, target) ∷ []
      → answers r.effects ≡ []
      → r.client ≡ record c { active_online_requests = track id c.active_online_requests }
      → ChargeFate accepts c queued id r
  -- the pump has the answer that the charge is allowed, and the charge waits at the queue's end
  kept :
      (c.online && is_reached accepts 0 c.known_nodes) ≡ false
      → deliveries r.effects ≡ []
      → answers r.effects ≡ NodeToStationMsg.charge_result id true none ∷ []
      → r.client ≡ record c { offline_queue = c.offline_queue ++ queued ∷ [] }
      → ChargeFate accepts c queued id r

try_reached :
    (accepts : ℕ → Bool) (k : ℕ) (msg : Message) (nodes : List SocketAddr)
    → is_reached accepts k nodes ≡ true
    → ((try_nodes accepts k msg nodes).1 ≡ true)
      × ((target : SocketAddr) × Mem target nodes
          × (deliveries (try_nodes accepts k msg nodes).0 ≡ (msg, target) ∷ []))
unfolding try_nodes
try_reached accepts k msg [] h = absurd (cc)
try_reached accepts k msg (target ∷ targets) h = elim (Bool-cases (accepts k)) [
  | inl reached ↦ rw reached (refl, (target, mem-cons_self, refl))
  | inr missed ↦
      let (sent, (later, known, one)) =
        try_reached accepts (k + 1) msg targets (ground (arith, missed)) in
      rw missed (sent, (later, mem-cons_of_mem target known, one))
]

try_missed :
    (accepts : ℕ → Bool) (k : ℕ) (msg : Message) (nodes : List SocketAddr)
    → is_reached accepts k nodes ≡ false
    → ((try_nodes accepts k msg nodes).1 ≡ false)
      × (deliveries (try_nodes accepts k msg nodes).0 ≡ [])
unfolding try_nodes
try_missed accepts k msg [] h = (refl, refl)
try_missed accepts k msg (target ∷ targets) h =
    ground (arith, try_missed accepts (k + 1) msg targets)

no_answers :
    (accepts : ℕ → Bool) (k : ℕ) (msg : Message) (nodes : List SocketAddr)
    → answers (try_nodes accepts k msg nodes).0 ≡ []
unfolding try_nodes
no_answers accepts k msg [] = refl
no_answers accepts k msg (target ∷ targets) = ground (arith, no_answers accepts (k + 1) msg targets)

forwarded_lem :
    (accepts : ℕ → Bool) (c : NodeClient) (queued : QueuedCharge) (id : ℕ)
    → (c.online && is_reached accepts 0 c.known_nodes) ≡ true
    → forward_or_enqueue_charge accepts true c queued id ≡ record {
      client = record c { active_online_requests = track id c.active_online_requests };
      effects =
          (try_nodes accepts 0
            (Message.request id (charge_of queued false) c.bind_addr)
            c.known_nodes).0;
      is_ok = true;
    }
unfolding forward_or_enqueue_charge forward_online_charge
forwarded_lem accepts c queued id h =
    let msg = Message.request id (charge_of queued false) c.bind_addr in
    ground (arith, h, try_reached accepts 0 msg c.known_nodes)

-- What the station is told before a charge is queued.
kept_effects : (ℕ → Bool) → NodeClient → QueuedCharge → ℕ → List ClientEffect
kept_effects accepts c queued id =
    let msg = Message.request id (charge_of queued false) c.bind_addr in
    elim c.known_nodes [
      | [] ↦ to_station NodeToStationMsg.debug ∷ []
      | _ ∷ _ ↦ if c.online then (try_nodes accepts 0 msg c.known_nodes).0 else []
    ]

kept_lem :
    (accepts : ℕ → Bool) (c : NodeClient) (queued : QueuedCharge) (id : ℕ)
    → (c.online && is_reached accepts 0 c.known_nodes) ≡ false
    → forward_or_enqueue_charge accepts true c queued id ≡ record {
      client = record c { offline_queue = c.offline_queue ++ queued ∷ [] };
      effects =
          kept_effects accepts c queued id
          ++ to_station (NodeToStationMsg.charge_result id true none) ∷ [];
      is_ok = true;
    }
unfolding forward_or_enqueue_charge forward_online_charge enqueue_offline_charge kept_effects
kept_lem accepts c queued id h =
    let msg = Message.request id (charge_of queued false) c.bind_addr in
    ground (arith, h, try_missed accepts 0 msg c.known_nodes)

kept_effects_lem :
    (accepts : ℕ → Bool) (c : NodeClient) (queued : QueuedCharge) (id : ℕ)
    → (c.online && is_reached accepts 0 c.known_nodes) ≡ false
    → (deliveries (kept_effects accepts c queued id) ≡ [])
      × (answers (kept_effects accepts c queued id) ≡ [])
unfolding kept_effects
kept_effects_lem accepts c queued id h =
    let msg = Message.request id (charge_of queued false) c.bind_addr in
    ground
      (arith, h, try_missed accepts 0 msg c.known_nodes, no_answers accepts 0 msg c.known_nodes)

-- While the station takes messages, a charge of a pump has one of two ends, and the handler succeeds:
-- a client that is online and reaches a known node has sent this node one request for the charge,
-- tracks its id and leaves the pump waiting; any other client has sent nothing, has answered the pump
-- once that the charge is allowed, and has put the charge at the end of its queue.
pub charge_has_fate :
    (accepts : ℕ → Bool) (c : NodeClient) (queued : QueuedCharge) (id : ℕ)
    → ChargeFate accepts c queued id (forward_or_enqueue_charge accepts true c queued id)
      × ((forward_or_enqueue_charge accepts true c queued id).is_ok ≡ true)
charge_has_fate accepts c queued id =
    let msg = Message.request id (charge_of queued false) c.bind_addr in
    elim (Bool-cases (c.online && is_reached accepts 0 c.known_nodes)) [
      | inl reached ↦
          let (sent, (target, known, one)) =
            try_reached accepts 0 msg c.known_nodes (ground (arith, reached)) in
          rw (forwarded_lem accepts c queued id reached) (
            ChargeFate.forwarded target reached known one (no_answers accepts 0 msg c.known_nodes)
                refl,
            refl,
          )
      | inr missed ↦
          let result = to_station (NodeToStationMsg.charge_result id true none) ∷ [] in
          let (none_sent, none_told) = kept_effects_lem accepts c queued id missed in
          rw (kept_lem accepts c queued id missed) (
            ChargeFate.kept missed
                (rw (deliveries-append (kept_effects accepts c queued id) result, none_sent) refl)
                (rw (answers-append (kept_effects accepts c queued id) result, none_told) refl)
                refl,
            refl,
          )
    ]
