-- ===== src/Clients/NodeClient/Tests.antt =====
-- Runs of the client of client/src/node_client/node_client.rs.
use mathlib.Core.List.{map}
use ypf_fleet_fuel_distribut.Prelude.{ℕ, ◌≡◌, refl, Bool, true, false, List, [], ◌∷◌, ltb}
use ypf_fleet_fuel_distribut.Domain.{
  SocketAddr, Message, ChargeResult, OperationResult, VerifyError, LimitCheckError,
}
use ypf_fleet_fuel_distribut.Station.{StationToNodeMsg}
use ypf_fleet_fuel_distribut.Clients.NodeClient.{
  QueuedCharge, NodeClient, to_station, done, is_tracked, charge_of, forward_or_enqueue_charge,
}
use ypf_fleet_fuel_distribut.Clients.NodeClient.Handlers.{
  handle_station_msg, handle_node_msg, flush_offline_queue,
}
use ypf_fleet_fuel_distribut.Clients.NodeClient.Effects.{deliveries, answers}
use ypf_fleet_fuel_distribut.Clients.NodeClient.Charges.{ChargeFate, charge_has_fate}
use ypf_fleet_fuel_distribut.Clients.NodeClient.Replays.{
  Merge, requested, replayed, flush_conserves_charges,
}
use ypf_fleet_fuel_distribut.Clients.NodeClient.Responses.{
  result_message, response_forwarded_once, other_response_loses_request, replay_takes_response,
}

abbrev local : ℕ → SocketAddr
local port = SocketAddr.v4 127 0 0 1 port

abbrev constant_hash : SocketAddr → ℕ
constant_hash addr = 42

-- The first send fails.
abbrev second_accepts : ℕ → Bool
second_accepts k = ltb 0 k

abbrev charge : ℕ → QueuedCharge
charge card_id = record { account_id = 1; card_id = card_id; amount = 0x41200000 }

abbrev busy_client : NodeClient
busy_client = record {
  bind_addr = local 9100;
  known_nodes = local 9001 ∷ local 9002 ∷ [];
  next_node_idx = 0;
  online = true;
  offline_queue = charge 10 ∷ charge 11 ∷ charge 12 ∷ [];
  active_online_requests = 1_000_000 ∷ 7 ∷ [];
  next_replay_req_id = 1_000_000;
}

abbrev denied : ChargeResult
denied = ChargeResult.failed (VerifyError.charge_limit LimitCheckError.card_limit_exceeded)

charge_has_fate_example :
    ChargeFate second_accepts busy_client
      (charge 13)
      8
      (forward_or_enqueue_charge second_accepts true busy_client (charge 13) 8)
    × ((forward_or_enqueue_charge second_accepts true busy_client (charge 13) 8).is_ok ≡ true)
charge_has_fate_example = charge_has_fate second_accepts busy_client (charge 13) 8

flush_conserves_charges_example :
    let flushed = flush_offline_queue second_accepts busy_client in
    (sent : List QueuedCharge) × Merge sent flushed.0.offline_queue busy_client.offline_queue
    × (requested (deliveries flushed.1) ≡ map replayed sent)
    × (answers flushed.1 ≡ [])
    × (flushed.0.active_online_requests ≡ 1_000_000 ∷ 7 ∷ [])
flush_conserves_charges_example = flush_conserves_charges second_accepts busy_client

response_forwarded_once_example :
    let first =
      handle_node_msg constant_hash second_accepts true busy_client
        (Message.response 7 (OperationResult.charge denied)) in
    let second =
      handle_node_msg constant_hash second_accepts true first.client
        (Message.response 7 OperationResult.replace_database) in
    (first.effects ≡ to_station (result_message 7 denied) ∷ [])
    × (first.is_ok ≡ true)
    × (second ≡ done first.client [])
response_forwarded_once_example =
    response_forwarded_once constant_hash second_accepts true busy_client 7 denied
      OperationResult.replace_database (refl, (refl, tt)) refl

other_response_loses_request_example :
    let first =
      handle_node_msg constant_hash second_accepts true busy_client
        (Message.response 7 OperationResult.replace_database) in
    let second =
      handle_node_msg constant_hash second_accepts true first.client
        (Message.response 7 (OperationResult.charge ChargeResult.ok)) in
    (answers first.effects ≡ [])
    × (answers second.effects ≡ [])
    × (is_tracked 7 second.client.active_online_requests ≡ false)
other_response_loses_request_example =
    other_response_loses_request constant_hash second_accepts busy_client 7
      OperationResult.replace_database ChargeResult.ok (refl, (refl, tt)) refl (λ r e. cc)

abbrev all_accept : ℕ → Bool
all_accept k = true

replay_takes_response_example :
    let back = handle_station_msg all_accept true busy_client StationToNodeMsg.connect_node in
    let first =
      handle_node_msg constant_hash all_accept true back.client
        (Message.response 1_000_000 (OperationResult.charge ChargeResult.ok)) in
    let second =
      handle_node_msg constant_hash all_accept true first.client
        (Message.response 1_000_000 (OperationResult.charge denied)) in
    ((rest : List (Message × SocketAddr)) × (deliveries back.effects
        ≡ (Message.request 1_000_000 (charge_of (charge 10) true) (local 9100), local 9001) ∷ rest))
    × (answers first.effects ≡ result_message 1_000_000 ChargeResult.ok ∷ [])
    × (second.effects ≡ [])
replay_takes_response_example =
    replay_takes_response constant_hash all_accept busy_client (charge 10)
      (charge 11 ∷ charge 12 ∷ []) (local 9001) (local 9002 ∷ []) ChargeResult.ok denied refl refl
      refl (refl, (refl, tt)) refl
