-- ===== src/Network/Connection.antt =====
-- common/src/network/connection.rs, active_helpers.rs, and `Handler::send` and `stop` of
-- handler/handler.rs. Sockets and tasks are outside: a start of a handler succeeds or gives its error,
-- and a handler is running until its task ends. An `Instant` is a number.
pub mod Active
pub mod Sends
use ypf_fleet_fuel_distribut.Prelude.{
  inr, ◌⊎◌, ℕ, Bool, true, false, Option, none, some, List, [], ◌∷◌, ltb, leb, if◌then◌else◌,
  length, not,
}
use ypf_fleet_fuel_distribut.Domain.{SocketAddr, Message}
use ypf_fleet_fuel_distribut.Nodes.Effects.{same_addr}

pub record Handler : Type 0 where
  pub address : SocketAddr
  pub last_used : ℕ
  pub is_running : Bool

-- The map of the handlers by their addresses.
abbrev pub Active : Type 0
Active = List Handler

-- `active.get(&address)`
unfoldable pub find_handler : SocketAddr → Active → Option Handler
find_handler address [] = none
find_handler address (h ∷ active) =
    let rest = find_handler address active in if same_addr address h.address then some h else rest

-- `active.insert(handler.address, handler)`
unfoldable pub insert_handler : Handler → Active → Active
insert_handler handler [] = handler ∷ []
insert_handler handler (h ∷ active) =
    let rest = insert_handler handler active in
    if same_addr handler.address h.address then handler ∷ active else h ∷ rest

-- `active.remove(&address)`; a removed handler is dropped, which aborts its task.
unfoldable pub remove_handler : SocketAddr → Active → Active
remove_handler address [] = []
remove_handler address (h ∷ active) =
    let rest = remove_handler address active in
    if same_addr address h.address then active else h ∷ rest

-- `min_by_key(|(_, handler)| handler.last_used)`, the first of the least, from `h` on.
unfoldable pub least_recent : Handler → Active → Handler
least_recent h [] = h
least_recent h (g ∷ active) = least_recent (if ltb g.last_used h.last_used then g else h) active

-- The handlers that stay.
unfoldable pub remove_last_recently_used : Active → Active
unfolding least_recent remove_handler
remove_last_recently_used [] = []
remove_last_recently_used (h ∷ active) = remove_handler (least_recent h active).address (h ∷ active)

unfoldable pub add_handler_from : Active → Handler → (max_conns : ℕ) → Active
unfolding insert_handler remove_last_recently_used
add_handler_from active handler max_conns =
    if leb max_conns (length active)
    then insert_handler handler (remove_last_recently_used active)
    else insert_handler handler active

pub record Connection : Type 0 where
  pub active : Active
  pub max_conns : ℕ
  pub connected : Bool

pub data ConnectionError : Type 0 where
  connection_lost : ConnectionError
  connection_lost_with connection_refused : (address : SocketAddr) → ConnectionError

pub data SendResult : Type 0 where
  sent : SendResult
  failed : (error : ConnectionError) → SendResult
  -- `unwrap` on a missing handler
  panicked : SendResult

-- `Handler::start`, where it succeeds.
abbrev pub started : SocketAddr → (now : ℕ) → Handler
started address now = record { address = address; last_used = now; is_running = true }

-- Gives the message to the handler, or removes the handler.
unfoldable pub send_by_handler : (now : ℕ) → Connection → SocketAddr → Connection × SendResult
unfolding find_handler insert_handler remove_handler
send_by_handler now c address = elim (find_handler address c.active) [
  | none ↦ (c, panicked)
  | some h ↦
      if h.is_running
      then (record c { active = insert_handler (record h { last_used = now }) c.active }, sent)
      else (
        record c { active = remove_handler address c.active },
        failed (connection_lost_with h.address),
      )
]

-- `Connection::send`; `start_error` is the error of `Handler::start`, if it is called and fails.
unfoldable pub send :
    (now : ℕ) → Option ConnectionError → Connection → SocketAddr → Connection × SendResult
unfolding find_handler
send now start_error c address =
    if not c.connected then (c, failed connection_lost) else elim (find_handler address c.active) [
      | some _ ↦ send_by_handler now c address
      | none ↦ elim start_error [
        | some error ↦ (c, failed error)
        | none ↦
            send_by_handler now
              (record c { active = add_handler_from c.active (started address now) c.max_conns })
              address
      ]
    ]

-- `Connection::recv`, where `next` is what the channel gives.
unfoldable pub recv :
    Connection → (next : Option (Message ⊎ ConnectionError)) → Option (Message ⊎ ConnectionError)
recv c next = if not c.connected then some (inr connection_lost) else next

-- `Handler::stop`
abbrev pub stop : Handler → Handler
stop h = record h { is_running = false }

unfoldable pub stop_all : Active → Active
stop_all [] = []
stop_all (h ∷ active) = stop h ∷ stop_all active

-- `Connection::disconnect`; the handlers stay in the map.
unfoldable pub disconnect : Connection → Connection
unfolding stop_all
disconnect c = record c { connected = false; active = stop_all c.active }

-- `Connection::reconnect`, which sets the flag first; the acceptor's start gives an error or none.
unfoldable pub reconnect : Option ConnectionError → Connection → Connection × Option ConnectionError
reconnect start_error c = (record c { connected = true }, start_error)

-- The loop of `Acceptor::run`: a peer at `address` has connected.
unfoldable pub accept : (now : ℕ) → Connection → SocketAddr → Connection
unfolding add_handler_from
accept now c address = record c {
  active = add_handler_from c.active (started address now) c.max_conns;
}

-- The task of a handler ends.
unfoldable pub lose : SocketAddr → Active → Active
lose address [] = []
lose address (h ∷ active) =
    let rest = lose address active in
    if same_addr address h.address then stop h ∷ active else h ∷ rest
