-- ===== src/Clients/Link/Places.antt =====
-- Where the requests of the pumps are between common/src/station.rs and
-- client/src/node_client/node_client.rs.
use ypf_fleet_fuel_distribut.Prelude.{
  ◌≤◌, ℕ, ◌+◌, ◌≡◌, refl, inl, inr, Bool-cases, Bool, true, false, List, [], ◌∷◌, ◌++◌, ◌==◌,
  if◌then◌else◌, arith,
}
use ypf_fleet_fuel_distribut.Domain.{SocketAddr, Message, OperationResult, ChargeResult}
use ypf_fleet_fuel_distribut.Station.{StationToNodeMsg, NodeToStationMsg}
use ypf_fleet_fuel_distribut.Station.Simulator.{StationOutput, to_node, print}
use ypf_fleet_fuel_distribut.Station.Invariant.{IsConsistent}
use ypf_fleet_fuel_distribut.Station.Requests.{requested, asked, charges}
use ypf_fleet_fuel_distribut.Clients.NodeClient.{
  NodeClient, QueuedCharge, ClientEffect, delivered, undelivered, to_station, Handled, is_tracked,
  forward_or_enqueue_charge,
}
use ypf_fleet_fuel_distribut.Clients.NodeClient.Handlers.{
  flush_offline_queue, handle_station_msg, handle_node_msg,
}
use ypf_fleet_fuel_distribut.Clients.NodeClient.Effects.{answers}
use ypf_fleet_fuel_distribut.Clients.NodeClient.Charges.{ChargeFate, charge_has_fate}
use ypf_fleet_fuel_distribut.Clients.NodeClient.Replays.{flush_conserves_charges}
use ypf_fleet_fuel_distribut.Clients.NodeClient.Responses.{
  IsIdSet, is_tracked-untrack, IsIdSet-track, IsIdSet-untrack, tracked_response, untracked_response,
}
use ypf_fleet_fuel_distribut.Clients.Link.{sent_to_node, sent_to_station, Link, is_expected}

-- Whether the client waits for a response to `j`: none or one.
abbrev pub awaited : ℕ → NodeClient → ℕ
awaited j c = if is_tracked j c.active_online_requests then 1 else 0

-- How often a result of `j` occurs.
abbrev pub answered : ℕ → List NodeToStationMsg → ℕ
answered j [] = 0
answered j (NodeToStationMsg.charge_result id allowed error ∷ msgs) =
    (if j == id then 1 else 0) + answered j msgs
answered j (NodeToStationMsg.debug ∷ msgs) = answered j msgs

-- The tables agree, and an open request of a pump is in one place: in the channel to the client, with
-- the client, or in the channel back as a result. No other id is anywhere.
pub record IsLinked (n : ℕ) (l : Link) : Type 0 where
  pub agree : IsConsistent n l.pumps
  pub distinct : IsIdSet l.client.active_online_requests
  pub once :
      (j : ℕ) → requested j l.pumps ≡ asked j l.requests + awaited j l.client + answered j l.results

pub asked-append :
    (j : ℕ) (xs ys : List StationToNodeMsg) → asked j (xs ++ ys) ≡ asked j xs + asked j ys
asked-append j [] ys = omega arith
asked-append j (StationToNodeMsg.charge_request a c m id ∷ xs) ys =
    omega (arith, asked-append j xs ys)
asked-append j (StationToNodeMsg.disconnect_node ∷ xs) ys = asked-append j xs ys
asked-append j (StationToNodeMsg.connect_node ∷ xs) ys = asked-append j xs ys

pub answered-append :
    (j : ℕ) (xs ys : List NodeToStationMsg) → answered j (xs ++ ys) ≡ answered j xs + answered j ys
answered-append j [] ys = omega arith
answered-append j (NodeToStationMsg.charge_result id allowed error ∷ xs) ys =
    omega (arith, answered-append j xs ys)
answered-append j (NodeToStationMsg.debug ∷ xs) ys = answered-append j xs ys

pub asked-sent_to_node :
    (j : ℕ) (outputs : List StationOutput)
    → asked j (sent_to_node outputs) ≡ asked j (charges outputs)
asked-sent_to_node j [] = refl
asked-sent_to_node j (to_node (StationToNodeMsg.charge_request a c m id) ∷ outputs) =
    omega (arith, asked-sent_to_node j outputs)
asked-sent_to_node j (to_node StationToNodeMsg.disconnect_node ∷ outputs) =
    asked-sent_to_node j outputs
asked-sent_to_node j (to_node StationToNodeMsg.connect_node ∷ outputs) =
    asked-sent_to_node j outputs
asked-sent_to_node j (print notice ∷ outputs) = asked-sent_to_node j outputs

answered-sent_to_station :
    (j : ℕ) (effects : List ClientEffect)
    → answered j (sent_to_station effects) ≡ answered j (answers effects)
answered-sent_to_station j [] = refl
answered-sent_to_station j
      (to_station (NodeToStationMsg.charge_result id allowed error) ∷ effects) =
    omega (arith, answered-sent_to_station j effects)
answered-sent_to_station j (to_station NodeToStationMsg.debug ∷ effects) =
    answered-sent_to_station j effects
answered-sent_to_station j (delivered msg addr ∷ effects) = answered-sent_to_station j effects
answered-sent_to_station j (undelivered msg addr ∷ effects) = answered-sent_to_station j effects

-- After a handler: what the client waits for and what it told the station, against what it waited for
-- and what it was asked.
abbrev pub IsAccounted : NodeClient → List StationToNodeMsg → Handled → Type 0
IsAccounted c msgs r =
    IsIdSet r.client.active_online_requests
    × ((j : ℕ)
        → awaited j r.client + answered j (sent_to_station r.effects) ≡ awaited j c + asked j msgs)

charge_IsAccounted :
    (accepts : ℕ → Bool) (c : NodeClient) (queued : QueuedCharge) (id : ℕ) (r : Handled)
    → ChargeFate accepts c queued id r
    → IsIdSet c.active_online_requests
    → is_tracked id c.active_online_requests ≡ false
    → IsAccounted c
        (StationToNodeMsg.charge_request queued.account_id queued.card_id queued.amount id ∷ [])
        r
charge_IsAccounted accepts c queued id r (ChargeFate.forwarded target reached known sent told after)
      distinct fresh =
    let ids = c.active_online_requests in
    rw after (
      IsIdSet-track id ids distinct,
      λ j. ground (arith, answered-sent_to_station j r.effects, told, fresh),
    )
charge_IsAccounted accepts c queued id r (ChargeFate.kept missed sent told after) distinct fresh =
    rw after (distinct, λ j. ground (arith, answered-sent_to_station j r.effects, told))

pub handle_station_msg-IsAccounted :
    (accepts : ℕ → Bool) (c : NodeClient) (msg : StationToNodeMsg)
    → IsIdSet c.active_online_requests
    → ((j : ℕ) → awaited j c + asked j (msg ∷ []) ≤ 1)
    → IsAccounted c (msg ∷ []) (handle_station_msg accepts true c msg)
unfolding handle_station_msg
handle_station_msg-IsAccounted accepts c (StationToNodeMsg.charge_request a k m id) distinct room =
    let queued : QueuedCharge = record { account_id = a; card_id = k; amount = m } in
    charge_IsAccounted accepts c queued id (forward_or_enqueue_charge accepts true c queued id)
      (charge_has_fate accepts c queued id).0 distinct (ground (arith, room id))
handle_station_msg-IsAccounted accepts c StationToNodeMsg.disconnect_node distinct room =
    (distinct, λ j. omega arith)
handle_station_msg-IsAccounted accepts c StationToNodeMsg.connect_node distinct room =
    let online = record c { online = true } in
    let sends = (flush_offline_queue accepts online).1 in
    let (sent, merge, ops, told, same) = flush_conserves_charges accepts online in
    (rw same distinct, λ j. ground (arith, same, told, answered-sent_to_station j sends))

response_IsAccounted :
    (hash : SocketAddr → ℕ) (accepts : ℕ → Bool) (c : NodeClient) (id : ℕ) (result : ChargeResult)
    → IsIdSet c.active_online_requests
    → IsAccounted c []
        (handle_node_msg hash accepts true c (Message.response id (OperationResult.charge result)))
response_IsAccounted hash accepts c id result distinct =
    let ids = c.active_online_requests in
    elim (Bool-cases (is_tracked id ids)) [
      | inl tracked ↦ rw (tracked_response hash accepts c id result tracked) (
        IsIdSet-untrack id ids distinct,
        λ j. ground (arith, tracked, is_tracked-untrack j id ids distinct),
      )
      | inr untracked ↦
          rw (untracked_response hash accepts true c id (OperationResult.charge result) untracked)
            (distinct, λ j. omega arith)
    ]

pub handle_node_msg-IsAccounted :
    (hash : SocketAddr → ℕ) (accepts : ℕ → Bool) (c : NodeClient) (msg : Message)
    → IsIdSet c.active_online_requests
    → is_expected msg ≡ true
    → IsAccounted c [] (handle_node_msg hash accepts true c msg)
unfolding handle_node_msg
handle_node_msg-IsAccounted hash accepts c (Message.response id (OperationResult.charge result)) d
      e =
    response_IsAccounted hash accepts c id result d
handle_node_msg-IsAccounted hash accepts c (Message.response id (OperationResult.limit_account _)) d
      e =
    absurd (cc)
handle_node_msg-IsAccounted hash accepts c (Message.response id (OperationResult.limit_card _)) d
      e =
    absurd (cc)
handle_node_msg-IsAccounted hash accepts c (Message.response id (OperationResult.account_query _)) d
      e =
    absurd (cc)
handle_node_msg-IsAccounted hash accepts c
      (Message.response id (OperationResult.database_snapshot _)) d e =
    absurd (cc)
handle_node_msg-IsAccounted hash accepts c (Message.response id OperationResult.replace_database) d
      e =
    absurd (cc)
handle_node_msg-IsAccounted hash accepts c (Message.role_query addr) d e = (d, λ j. ground arith)
handle_node_msg-IsAccounted hash accepts c (Message.request _ _ _) d e = (d, λ j. omega arith)
handle_node_msg-IsAccounted hash accepts c (Message.log _ _) d e = (d, λ j. omega arith)
handle_node_msg-IsAccounted hash accepts c (Message.ack _) d e = (d, λ j. omega arith)
handle_node_msg-IsAccounted hash accepts c (Message.election _ _) d e = (d, λ j. omega arith)
handle_node_msg-IsAccounted hash accepts c (Message.election_ok _) d e = (d, λ j. omega arith)
handle_node_msg-IsAccounted hash accepts c (Message.coordinator _ _) d e = (d, λ j. omega arith)
handle_node_msg-IsAccounted hash accepts c (Message.join _) d e = (d, λ j. omega arith)
handle_node_msg-IsAccounted hash accepts c (Message.cluster_view _ _ _) d e = (d, λ j. omega arith)
handle_node_msg-IsAccounted hash accepts c (Message.cluster_update _) d e = (d, λ j. omega arith)
handle_node_msg-IsAccounted hash accepts c (Message.role_response _ _) d e = (d, λ j. omega arith)
