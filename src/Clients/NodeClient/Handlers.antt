-- ===== src/Clients/NodeClient/Handlers.antt =====
-- The handlers of client/src/node_client/node_client.rs that replay charges and take messages, and the
-- loop of `run`.
use ypf_fleet_fuel_distribut.Prelude.{
  ℕ, ◌+◌, ◌%◌, ◌^◌, Bool, true, false, not, Option, none, some, List, [], ◌∷◌, ◌++◌, if◌then◌else◌,
}
use ypf_fleet_fuel_distribut.Domain.{
  SocketAddr, ChargeResult, OperationResult, NodeRole, Message, VerifyError,
}
use ypf_fleet_fuel_distribut.Station.{StationToNodeMsg, NodeToStationMsg}
use ypf_fleet_fuel_distribut.Clients.NodeClient.{
  QueuedCharge, get_id_given_addr, NodeClient, ClientEffect, delivered, undelivered, Handled, done,
  is_tracked, untrack, tell, charge_of, forward_or_enqueue_charge,
}

-- `id.wrapping_add(1)` of a `u32`
abbrev pub next_id : ℕ → ℕ
next_id id = (id + 1) % 2 ^ 32

-- What the replay of one charge or of several did: the sends, how often it sent, the next id.
pub record Replay : Type 0 where
  pub sends : List ClientEffect
  pub attempts : ℕ
  pub next_replay_req_id : ℕ
  pub still_pending : List QueuedCharge

-- The inner loop of `flush_offline_queue`: each send has an id of its own.
unfoldable pub replay_charge :
    (ℕ → Bool) → (bind_addr : SocketAddr) → (k id : ℕ) → QueuedCharge → List SocketAddr → Replay
replay_charge accepts bind_addr k id queued [] = record {
  sends = [];
  attempts = k;
  next_replay_req_id = id;
  still_pending = queued ∷ [];
}
replay_charge accepts bind_addr k id queued (target ∷ targets) =
    let msg = Message.request id (charge_of queued true) bind_addr in
    let rest = replay_charge accepts bind_addr (k + 1) (next_id id) queued targets in
    if accepts k
    then record {
      sends = delivered msg target ∷ [];
      attempts = k + 1;
      next_replay_req_id = next_id id;
      still_pending = [];
    }
    else record rest { sends = undelivered msg target ∷ rest.sends }

-- The loop over the drained queue.
unfoldable pub replay_queue :
    (ℕ → Bool)
    → (bind_addr : SocketAddr) → List SocketAddr
    → (k id : ℕ) → List QueuedCharge
    → Replay
unfolding replay_charge
replay_queue accepts bind_addr nodes k id [] = record {
  sends = [];
  attempts = k;
  next_replay_req_id = id;
  still_pending = [];
}
replay_queue accepts bind_addr nodes k id (queued ∷ queue) =
    let one = replay_charge accepts bind_addr k id queued nodes in
    let rest = replay_queue accepts bind_addr nodes one.attempts one.next_replay_req_id queue in
    record rest {
      sends = one.sends ++ rest.sends;
      still_pending = one.still_pending ++ rest.still_pending;
    }

-- The queue is drained first, so it is what is still pending.
unfoldable pub flush_offline_queue : (ℕ → Bool) → NodeClient → NodeClient × List ClientEffect
unfolding replay_queue
flush_offline_queue accepts c = elim c.offline_queue [
  | [] ↦ (c, [])
  | _ ∷ _ ↦ elim c.known_nodes [
    | [] ↦ (c, [])
    | _ ∷ _ ↦
        let replay =
          replay_queue accepts c.bind_addr c.known_nodes 0 c.next_replay_req_id c.offline_queue in
        (
          record c {
            offline_queue = replay.still_pending;
            next_replay_req_id = replay.next_replay_req_id;
          },
          replay.sends,
        )
  ]
]

unfoldable pub handle_station_msg : (ℕ → Bool) → Bool → NodeClient → StationToNodeMsg → Handled
handle_station_msg accepts is_open c
      (StationToNodeMsg.charge_request account_id card_id amount id) =
    forward_or_enqueue_charge accepts is_open c
      (record { account_id = account_id; card_id = card_id; amount = amount }) id
handle_station_msg accepts is_open c StationToNodeMsg.disconnect_node =
    done (record c { online = false }) (tell is_open NodeToStationMsg.debug)
handle_station_msg accepts is_open c StationToNodeMsg.connect_node =
    let (flushed, sends) = flush_offline_queue accepts (record c { online = true }) in
    done flushed (tell is_open NodeToStationMsg.debug ++ sends)

-- Whether a charge was allowed, and why not.
abbrev pub verdict : ChargeResult → Bool × Option VerifyError
verdict ChargeResult.ok = (true, none)
verdict (ChargeResult.failed e) = (false, some e)

unfoldable pub handle_response_from_node : Bool → NodeClient → ℕ → OperationResult → Handled
handle_response_from_node is_open c req_id (OperationResult.charge result) =
    let (allowed, error) = verdict result in
    record {
      client = c;
      effects = tell is_open (NodeToStationMsg.charge_result req_id allowed error);
      is_ok = is_open;
    }
handle_response_from_node is_open c req_id other = done c (tell is_open NodeToStationMsg.debug)

unfoldable pub handle_node_msg :
    (SocketAddr → ℕ) → (ℕ → Bool) → Bool → NodeClient → Message → Handled
handle_node_msg hash accepts is_open c (Message.response req_id op_result) =
    let removed = record c { active_online_requests = untrack req_id c.active_online_requests } in
    if not (is_tracked req_id c.active_online_requests)
    then done c []
    else handle_response_from_node is_open removed req_id op_result
handle_node_msg hash accepts is_open c (Message.role_query addr) =
    let msg = Message.role_response (get_id_given_addr hash c.bind_addr) NodeRole.station in
    record {
      client = c;
      effects = (if accepts 0 then delivered msg addr else undelivered msg addr) ∷ [];
      is_ok = accepts 0;
    }
handle_node_msg hash accepts is_open c other = done c []

-- What the `select!` of `run` takes: a message with the outcomes of the sends that it leads to, the end
-- of the station, or an error of the connection.
pub data ClientEvent : Type 0 where
  from_station : (accepts : ℕ → Bool) (is_open : Bool) → StationToNodeMsg → ClientEvent
  from_node : (accepts : ℕ → Bool) (is_open : Bool) → Message → ClientEvent
  station_closed receive_failed : ClientEvent

-- How far `run` has come: it goes on, it has returned, or it has returned an error.
pub data ClientRun : Type 0 where
  goes_on stopped failed : (client : NodeClient) (effects : List ClientEffect) → ClientRun

abbrev pub after_handler : Handled → ClientRun
after_handler r = if r.is_ok then goes_on r.client r.effects else failed r.client r.effects

unfoldable pub client_turn : (SocketAddr → ℕ) → NodeClient → ClientEvent → ClientRun
client_turn hash c (from_station accepts is_open msg) =
    after_handler (handle_station_msg accepts is_open c msg)
client_turn hash c (from_node accepts is_open msg) =
    after_handler (handle_node_msg hash accepts is_open c msg)
client_turn hash c station_closed = stopped c []
client_turn hash c receive_failed = goes_on c []

abbrev pub then_run : ClientRun → (NodeClient → ClientRun) → ClientRun
then_run (goes_on c effects) next = elim (next c) [
  | goes_on d later ↦ goes_on d (effects ++ later)
  | stopped d later ↦ stopped d (effects ++ later)
  | failed d later ↦ failed d (effects ++ later)
]
then_run (stopped c effects) next = stopped c effects
then_run (failed c effects) next = failed c effects

-- `NodeClient::run`, over the events that it takes.
unfoldable pub run_client : (SocketAddr → ℕ) → NodeClient → List ClientEvent → ClientRun
unfolding client_turn
run_client hash c [] = goes_on c []
run_client hash c (event ∷ events) =
    then_run (client_turn hash c event) (λ d. run_client hash d events)
