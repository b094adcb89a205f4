-- ===== src/Clients/NodeClient/Responses.antt =====
-- A response of the cluster at client/src/node_client/node_client.rs.
use ypf_fleet_fuel_distribut.Clients.NodeClient.{
  QueuedCharge, NodeClient, to_station, done, charge_of, is_tracked, track, untrack,
}
use ypf_fleet_fuel_distribut.Clients.NodeClient.Handlers.{
  next_id, verdict, handle_response_from_node, handle_node_msg, replay_charge, replay_queue,
  flush_offline_queue, handle_station_msg,
}
use ypf_fleet_fuel_distribut.Prelude.{
  ℕ, ◌≡◌, ◌≢◌, refl, Bool, true, false, List, [], ◌∷◌, ◌==◌, if◌then◌else◌, arith,
}
use ypf_fleet_fuel_distribut.Domain.{SocketAddr, Message, ChargeResult, OperationResult}
use ypf_fleet_fuel_distribut.Station.{NodeToStationMsg, StationToNodeMsg}
use ypf_fleet_fuel_distribut.Clients.NodeClient.Effects.{deliveries, answers}
use ypf_fleet_fuel_distribut.Clients.NodeClient.Replays.{busy_flush}

-- No id is tracked twice.
abbrev pub IsIdSet : List ℕ → Type 0
IsIdSet [] = Unit {0}
IsIdSet (x ∷ xs) = (is_tracked x xs ≡ false) × IsIdSet xs

pub is_tracked-untrack :
    (j id : ℕ) (ids : List ℕ)
    → IsIdSet ids
    → is_tracked j (untrack id ids) ≡ (if j == id then false else is_tracked j ids)
is_tracked-untrack j id [] h = ground arith
is_tracked-untrack j id (x ∷ xs) h = ground (arith, is_tracked-untrack j id xs h.1, h.0)

pub is_tracked-track :
    (j id : ℕ) (ids : List ℕ)
    → is_tracked j (track id ids) ≡ (if j == id then true else is_tracked j ids)
is_tracked-track j id ids = ground arith

pub IsIdSet-track : (id : ℕ) (ids : List ℕ) → IsIdSet ids → IsIdSet (track id ids)
IsIdSet-track id ids h = ground arith

pub IsIdSet-untrack : (id : ℕ) (ids : List ℕ) → IsIdSet ids → IsIdSet (untrack id ids)
IsIdSet-untrack id [] h = h
IsIdSet-untrack id (x ∷ xs) h =
    ground (arith, IsIdSet-untrack id xs h.1, is_tracked-untrack x id xs h.1)

abbrev pub result_message : ℕ → ChargeResult → NodeToStationMsg
result_message id result = NodeToStationMsg.charge_result id (verdict result).0 (verdict result).1

pub tracked_response :
    (hash : SocketAddr → ℕ) (accepts : ℕ → Bool) (c : NodeClient) (id : ℕ) (result : ChargeResult)
    → is_tracked id c.active_online_requests ≡ true
    → handle_node_msg hash accepts true c (Message.response id (OperationResult.charge result))
      ≡ done
          (record c { active_online_requests = untrack id c.active_online_requests })
          (to_station (result_message id result) ∷ [])
unfolding handle_node_msg handle_response_from_node
tracked_response hash accepts c id result h = ground (arith, h)

pub untracked_response :
    (hash : SocketAddr → ℕ) (accepts : ℕ → Bool) (is_open : Bool) (c : NodeClient) (id : ℕ)
    (result : OperationResult)
    → is_tracked id c.active_online_requests ≡ false
    → handle_node_msg hash accepts is_open c (Message.response id result) ≡ done c []
unfolding handle_node_msg
untracked_response hash accepts is_open c id result h = ground (arith, h)

-- The first response with the id of a tracked charge is passed on to the station as it is, and the id
-- is not tracked any more; every later response with this id changes nothing and tells nobody.
pub response_forwarded_once :
    (hash : SocketAddr → ℕ) (accepts : ℕ → Bool) (is_open : Bool) (c : NodeClient) (id : ℕ)
    (result : ChargeResult) (later : OperationResult)
    → IsIdSet c.active_online_requests
    → is_tracked id c.active_online_requests ≡ true
    → let first =
        handle_node_msg hash accepts true c (Message.response id (OperationResult.charge result)) in
      let second = handle_node_msg hash accepts is_open first.client (Message.response id later) in
      (first.effects ≡ to_station (result_message id result) ∷ [])
      × (first.is_ok ≡ true)
      × (second ≡ done first.client [])
response_forwarded_once hash accepts is_open c id result later distinct h =
    let gone = is_tracked-untrack id id c.active_online_requests distinct in
    let after = record c { active_online_requests = untrack id c.active_online_requests } in
    rw (tracked_response hash accepts c id result h)
      (refl, refl, untracked_response hash accepts is_open after id later (ground (arith, gone)))

-- A response that is not of a charge takes the id of a tracked request away and gives the station no
-- result; a charge result that comes later is dropped, so the pump never hears of its request.
pub other_response_loses_request :
    (hash : SocketAddr → ℕ) (accepts : ℕ → Bool) (c : NodeClient) (id : ℕ) (other : OperationResult)
    (result : ChargeResult)
    → IsIdSet c.active_online_requests
    → is_tracked id c.active_online_requests ≡ true
    → ((r : ChargeResult) → other ≢ OperationResult.charge r)
    → let first = handle_node_msg hash accepts true c (Message.response id other) in
      let second =
        handle_node_msg hash accepts true first.client
          (Message.response id (OperationResult.charge result)) in
      (answers first.effects ≡ [])
      × (answers second.effects ≡ [])
      × (is_tracked id second.client.active_online_requests ≡ false)
unfolding handle_node_msg handle_response_from_node
other_response_loses_request hash accepts c id (OperationResult.charge r) result distinct h
      not_charge =
    absurd (not_charge r refl)
other_response_loses_request hash accepts c id (OperationResult.limit_account _) result distinct h
      n =
    ground (arith, h, is_tracked-untrack id id c.active_online_requests distinct)
other_response_loses_request hash accepts c id (OperationResult.limit_card _) result distinct h n =
    ground (arith, h, is_tracked-untrack id id c.active_online_requests distinct)
other_response_loses_request hash accepts c id (OperationResult.account_query _) result distinct h
      n =
    ground (arith, h, is_tracked-untrack id id c.active_online_requests distinct)
other_response_loses_request hash accepts c id (OperationResult.database_snapshot _) result distinct
      h n =
    ground (arith, h, is_tracked-untrack id id c.active_online_requests distinct)
other_response_loses_request hash accepts c id OperationResult.replace_database result distinct h
      n =
    ground (arith, h, is_tracked-untrack id id c.active_online_requests distinct)

first_sent :
    (accepts : ℕ → Bool) (c : NodeClient) (queued : QueuedCharge) (queue : List QueuedCharge)
    (node : SocketAddr) (nodes : List SocketAddr)
    → c.offline_queue ≡ queued ∷ queue
    → c.known_nodes ≡ node ∷ nodes
    → accepts 0 ≡ true
    → (rest : List (Message × SocketAddr)) × (deliveries (flush_offline_queue accepts c).1
        ≡ (Message.request c.next_replay_req_id (charge_of queued true) c.bind_addr, node) ∷ rest)
unfolding flush_offline_queue replay_queue replay_charge
first_sent accepts c queued queue node nodes waits known sent =
    let id = c.next_replay_req_id in
    let later = replay_queue accepts c.bind_addr (node ∷ nodes) 1 (next_id id) queue in
    (deliveries later.sends, ground (arith, waits, known, sent))

-- A pump whose request has the id of the next replay gets the replay's result: once the client has gone
-- online, the response to the replayed charge is passed on as the result of the pump's own request,
-- and the response to that request is dropped.
pub replay_takes_response :
    (hash : SocketAddr → ℕ) (accepts : ℕ → Bool) (c : NodeClient) (queued : QueuedCharge)
    (queue : List QueuedCharge) (node : SocketAddr) (nodes : List SocketAddr)
    (replayed own : ChargeResult)
    → c.offline_queue ≡ queued ∷ queue
    → c.known_nodes ≡ node ∷ nodes
    → accepts 0 ≡ true
    → IsIdSet c.active_online_requests
    → is_tracked c.next_replay_req_id c.active_online_requests ≡ true
    → let id = c.next_replay_req_id in
      let back = handle_station_msg accepts true c StationToNodeMsg.connect_node in
      let first =
        handle_node_msg hash accepts true back.client
          (Message.response id (OperationResult.charge replayed)) in
      let second =
        handle_node_msg hash accepts true first.client
          (Message.response id (OperationResult.charge own)) in
      ((rest : List (Message × SocketAddr)) × (deliveries back.effects
          ≡ (Message.request id (charge_of queued true) c.bind_addr, node) ∷ rest))
      × (answers first.effects ≡ result_message id replayed ∷ [])
      × (second.effects ≡ [])
unfolding handle_station_msg
replay_takes_response hash accepts c queued queue node nodes replayed own waits known sent distinct
      h =
    let id = c.next_replay_req_id in
    let ids = c.active_online_requests in
    let online = record c { online = true } in
    let flushed = (flush_offline_queue accepts online).0 in
    let same : flushed.active_online_requests ≡ ids =
      rw (busy_flush accepts online queued queue node nodes waits known) refl in
    let first_known : is_tracked id flushed.active_online_requests ≡ true = rw same h in
    let removed = record flushed {
      active_online_requests = untrack id flushed.active_online_requests;
    } in
    let gone : is_tracked id removed.active_online_requests ≡ false =
      rw same (ground (arith, is_tracked-untrack id id ids distinct)) in
    rw
      (
        tracked_response hash accepts flushed id replayed first_known,
        untracked_response hash accepts true removed id (OperationResult.charge own) gone,
      )
      (first_sent accepts online queued queue node nodes waits known sent, refl, refl)
