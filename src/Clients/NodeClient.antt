-- ===== src/Clients/NodeClient.antt =====
-- client/src/node_client/node_client.rs: a node between a station and the cluster.
-- The sends of one handler are numbered from 0, and `accepts k` says whether the k-th succeeds;
-- `is_open` says whether the station takes messages.
pub mod Handlers
pub mod Effects
pub mod Charges
pub mod Replays
pub mod Responses
mod Tests
use ypf_fleet_fuel_distribut.Prelude.{
  ℕ, ◌+◌, ◌%◌, Bool, true, false, ◌||◌, not, Option, none, some, List, [], ◌∷◌, ◌++◌, ◌==◌,
  if◌then◌else◌, length, get_elem?,
}
use ypf_fleet_fuel_distribut.Float.{F32}
use ypf_fleet_fuel_distribut.Domain.{SocketAddr, Operation, Message}
use ypf_fleet_fuel_distribut.Station.{NodeToStationMsg}

pub record QueuedCharge : Type 0 where
  pub account_id : ℕ
  pub card_id : ℕ
  pub amount : F32

-- `DefaultHasher` on an address is the parameter `hash`.
unfoldable pub get_id_given_addr : (SocketAddr → ℕ) → SocketAddr → ℕ
get_id_given_addr hash addr = hash addr % 100000 + 1

-- The hash set of tracked ids is a list without repetitions.
pub record NodeClient : Type 0 where
  pub bind_addr : SocketAddr
  pub known_nodes : List SocketAddr
  pub next_node_idx : ℕ
  pub online : Bool
  pub offline_queue : List QueuedCharge
  pub active_online_requests : List ℕ
  pub next_replay_req_id : ℕ

unfoldable pub new_client : SocketAddr → List SocketAddr → NodeClient
new_client bind_addr known_nodes = record {
  bind_addr = bind_addr;
  known_nodes = known_nodes;
  next_node_idx = 0;
  online = true;
  offline_queue = [];
  active_online_requests = [];
  next_replay_req_id = 1_000_000;
}

-- Nothing, where the list of nodes is empty and the remainder panics.
unfoldable pub pick_next_node : NodeClient → Option (NodeClient × SocketAddr)
pick_next_node c =
    let count = length c.known_nodes in
    let idx = c.next_node_idx % count in
    elim c.known_nodes [
      | [] ↦ none
      | _ ∷ _ ↦ elim (get_elem? c.known_nodes idx) [
        | none ↦ none
        | some addr ↦ some (record c { next_node_idx = (c.next_node_idx + 1) % count }, addr)
      ]
    ]

pub data ClientEffect : Type 0 where
  -- a send that succeeds, and one that fails
  delivered undelivered : Message → (addr : SocketAddr) → ClientEffect
  to_station : NodeToStationMsg → ClientEffect

-- The client after a handler, what the handler did, and whether it returned `Ok`.
pub record Handled : Type 0 where
  pub client : NodeClient
  pub effects : List ClientEffect
  pub is_ok : Bool

abbrev pub done : NodeClient → List ClientEffect → Handled
done c effects = record { client = c; effects = effects; is_ok = true }

-- `contains`, `insert` and `remove` of the set of ids.
abbrev pub is_tracked : ℕ → List ℕ → Bool
is_tracked id [] = false
is_tracked id (x ∷ xs) = id == x || is_tracked id xs

abbrev pub track : ℕ → List ℕ → List ℕ
track id ids = if is_tracked id ids then ids else id ∷ ids

abbrev pub untrack : ℕ → List ℕ → List ℕ
untrack id [] = []
untrack id (x ∷ xs) = if id == x then xs else x ∷ untrack id xs

-- A message to the station whose failure is ignored.
abbrev pub tell : Bool → NodeToStationMsg → List ClientEffect
tell is_open msg = if is_open then to_station msg ∷ [] else []

unfoldable pub enqueue_offline_charge :
    Bool → NodeClient → QueuedCharge → (request_id : ℕ) → Handled
enqueue_offline_charge is_open c queued request_id = record {
  client = record c { offline_queue = c.offline_queue ++ queued ∷ [] };
  effects = tell is_open (NodeToStationMsg.charge_result request_id true none);
  is_ok = is_open;
}

abbrev pub charge_of : QueuedCharge → Bool → Operation
charge_of queued from_offline_station =
    Operation.charge queued.account_id queued.card_id queued.amount from_offline_station

-- The loop over the known nodes: what was sent, and whether a send succeeded.
unfoldable pub try_nodes : (ℕ → Bool) → ℕ → Message → List SocketAddr → List ClientEffect × Bool
try_nodes accepts k msg [] = ([], false)
try_nodes accepts k msg (target ∷ targets) =
    let rest = try_nodes accepts (k + 1) msg targets in
    if accepts k
    then (delivered msg target ∷ [], true)
    else (undelivered msg target ∷ rest.0, rest.1)

unfoldable pub forward_online_charge :
    (ℕ → Bool) → Bool → NodeClient → QueuedCharge → (request_id : ℕ) → Handled
forward_online_charge accepts is_open c queued request_id =
    let (sends, sent) =
      try_nodes accepts 0 (Message.request request_id (charge_of queued false) c.bind_addr)
        c.known_nodes in
    let offline = enqueue_offline_charge is_open c queued request_id in
    if sent
    then done (record c { active_online_requests = track request_id c.active_online_requests })
        sends
    else record offline { effects = sends ++ offline.effects }

unfoldable pub forward_or_enqueue_charge :
    (ℕ → Bool) → Bool → NodeClient → QueuedCharge → (request_id : ℕ) → Handled
forward_or_enqueue_charge accepts is_open c queued request_id =
    let offline = enqueue_offline_charge is_open c queued request_id in
    elim c.known_nodes [
      | [] ↦ record offline { effects = tell is_open NodeToStationMsg.debug ++ offline.effects }
      | _ ∷ _ ↦
          if not c.online
          then offline
          else forward_online_charge accepts is_open c queued request_id
    ]
