-- ===== src/Network/Tests.antt =====
-- Concrete streams and connections of common/src/network/.
use ypf_fleet_fuel_distribut.Prelude.{
  ◌%◌, ap, ℕ, zero, suc, ◌+◌, ◌≤◌, ◌<◌, ◌≡◌, ◌^◌, refl, true, false, none, some, List, [], ◌∷◌,
  ◌++◌, if◌then◌else◌, length, All, arith,
}
use ypf_fleet_fuel_distribut.Domain.{SocketAddr, Message}
use ypf_fleet_fuel_distribut.Nodes.Effects.{same_addr}
use ypf_fleet_fuel_distribut.Wire.Result.{Result, ok}
use ypf_fleet_fuel_distribut.Wire.Bytes.{to_be_bytes}
use ypf_fleet_fuel_distribut.Wire.Serialize.{serialize_socket_address}
use ypf_fleet_fuel_distribut.Wire.Serialize.Messages.{serialize_message}
use ypf_fleet_fuel_distribut.Network.Frames.{frame, recv, classify}
use ypf_fleet_fuel_distribut.Network.Frames.Delivery.{
  Outgoing, node, request, reply, write_all, read_all, IsSendable, frames_arrive,
}
use ypf_fleet_fuel_distribut.Network.Frames.Limits.{long_frame_splits}
use ypf_fleet_fuel_distribut.Network.Connection.{
  Handler, Active, Connection, connection_lost_with, sent, failed, find_handler,
  remove_last_recently_used, add_handler_from, send, disconnect, reconnect,
}
use ypf_fleet_fuel_distribut.Network.Connection.Active.{
  IsActive, eviction_takes_least_recent, add_handler_from-bound,
}
use ypf_fleet_fuel_distribut.Network.Connection.Sends.{reconnected_send_fails}
use ypf_fleet_fuel_distribut.Network.Heartbeats.{
  heartbeat_timeout, received, node_message, heartbeat_due, TaskEvent, running, ended, take_branch,
  handle_recv_result, after_branch, run_turn, run_handler,
}
use ypf_fleet_fuel_distribut.Network.Heartbeats.Silence.{silent_peer_given_up}

abbrev peer : ℕ → SocketAddr
peer port = SocketAddr.v4 127 0 0 1 port

abbrev outgoing : List Outgoing
outgoing = request ∷ node (Message.ack 7) ∷ reply ∷ node (Message.role_query (peer 9000)) ∷ []

short_bytes :
    (xs bytes : List ℕ) (r : Result (List ℕ))
    → r ≡ ok xs
    → length xs < 2 ^ 16
    → r ≡ ok bytes
    → length bytes < 2 ^ 16
short_bytes xs bytes r is_xs small is_bytes = ground (arith, is_xs, is_bytes)

ack_bytes : serialize_message (Message.ack 7) ≡ ok (2 ∷ 0 ∷ 0 ∷ 0 ∷ 7 ∷ [])
unfolding serialize_message to_be_bytes
ack_bytes = refl

query_bytes :
    serialize_message (Message.role_query (peer 9000)) ≡ ok (7 ∷ 127 ∷ 0 ∷ 0 ∷ 1 ∷ 35 ∷ 40 ∷ [])
unfolding serialize_message serialize_socket_address to_be_bytes
query_bytes = refl

outgoing-IsSendable : All IsSendable outgoing
outgoing-IsSendable = (
  tt,
  (
    (
      omega arith,
      λ bytes. short_bytes _ bytes (serialize_message (Message.ack 7)) ack_bytes (omega arith),
    ),
    (
      tt,
      (
        (
          omega arith,
          λ bytes.
              short_bytes _ bytes (serialize_message (Message.role_query (peer 9000))) query_bytes
                (omega arith),
        ),
        tt,
      ),
    ),
  ),
)

frames_arrive_example :
    (stream : List ℕ) × (write_all outgoing ≡ ok stream) × (read_all 4 stream ≡ some (outgoing, []))
frames_arrive_example = frames_arrive outgoing outgoing-IsSendable

zeros : ℕ → List ℕ
zeros zero = []
zeros (suc n) = 0 ∷ zeros n

length-zeros : (n : ℕ) → length (zeros n) ≡ n
unfolding zeros
length-zeros zero = refl
length-zeros (suc n) = ap suc (length-zeros n)

long_frame_splits_example :
    (head tail : List ℕ) × (head ++ tail ≡ zeros 65541)
    × (length head ≡ length (zeros 65541) % 2 ^ 16)
    × (0 < length tail)
    × (recv (frame (zeros 65541) ++ []) ≡ classify head (tail ++ []))
long_frame_splits_example = long_frame_splits (zeros 65541) [] (omega (arith, length-zeros 65541))

abbrev handler : ℕ → ℕ → Handler
handler port last_used = record { address = peer port; last_used = last_used; is_running = true }

abbrev two_handlers : Active
two_handlers = handler 9001 30 ∷ handler 9002 20 ∷ []

two_handlers-IsActive : IsActive two_handlers
unfolding find_handler
two_handlers-IsActive = (refl, (refl, tt))

eviction_takes_least_recent_example :
    (victim : Handler) × (find_handler victim.address two_handlers ≡ some victim)
    × All (λ g. victim.last_used ≤ g.last_used) two_handlers
    × (suc (length (remove_last_recently_used two_handlers)) ≡ 2)
    × ((a : SocketAddr)
        → find_handler a (remove_last_recently_used two_handlers)
          ≡ (if same_addr a victim.address then none else find_handler a two_handlers))
eviction_takes_least_recent_example =
    eviction_takes_least_recent (handler 9001 30) (handler 9002 20 ∷ []) two_handlers-IsActive

add_handler_from-bound_example : length (add_handler_from two_handlers (handler 9003 40) 2) ≤ 2
add_handler_from-bound_example =
    add_handler_from-bound two_handlers (handler 9003 40) 2 two_handlers-IsActive (omega arith)
      (omega arith)

abbrev busy_connection : Connection
busy_connection = record { active = two_handlers; max_conns = 2; connected = true }

handler_9002 : find_handler (peer 9002) two_handlers ≡ some (handler 9002 20)
unfolding find_handler
handler_9002 = refl

reconnected_send_fails_example :
    let back = (reconnect none (disconnect busy_connection)).0 in
    let first = send 40 none back (peer 9002) in
    let second = send 50 none first.0 (peer 9002) in
    (first.1 ≡ failed (connection_lost_with (peer 9002))) × (second.1 ≡ sent)
reconnected_send_fails_example =
    reconnected_send_fails 40 50 none busy_connection (handler 9002 20) two_handlers-IsActive
      handler_9002

abbrev message_at : ℕ → TaskEvent
message_at time = record {
  branch = received node_message;
  can_write = true;
  is_open = true;
  handled_at = time;
  tested_at = time;
}

still_running : run_handler (running 500) (message_at 4000 ∷ message_at 10500 ∷ []) ≡ running 500
unfolding run_handler run_turn take_branch handle_recv_result after_branch
still_running = refl

given_up : run_handler (running 500) (message_at 4000 ∷ message_at 10501 ∷ []) ≡ ended true
unfolding run_handler run_turn take_branch handle_recv_result after_branch
given_up = refl

silent_peer_given_up_example :
    ◌≡◌ {A = ℕ} 500 500
    × All (λ e. e.tested_at ≤ 500 + heartbeat_timeout) (message_at 4000 ∷ message_at 10500 ∷ [])
silent_peer_given_up_example =
    silent_peer_given_up (message_at 4000 ∷ message_at 10500 ∷ []) 500 500 (refl, (refl, tt))
      still_running

abbrev unwritable_beat : TaskEvent
unwritable_beat = record {
  branch = heartbeat_due;
  can_write = false;
  is_open = true;
  handled_at = 1000;
  tested_at = 1000;
}
