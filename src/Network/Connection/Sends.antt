-- ===== src/Network/Connection/Sends.antt =====
-- `Connection::send` of common/src/network/connection.rs.
use ypf_fleet_fuel_distribut.Network.Connection.{
  remove_last_recently_used, Handler, Active, Connection, ConnectionError, connection_lost_with,
  sent, failed, panicked, started, stop, find_handler, remove_handler, add_handler_from,
  send_by_handler, send, stop_all, disconnect, reconnect,
}
use ypf_fleet_fuel_distribut.Prelude.{
  ℕ, ◌≡◌, ◌≢◌, ◌∙◌, refl, true, false, Option, none, some, [], ◌∷◌, arith,
}
use ypf_fleet_fuel_distribut.Domain.{SocketAddr}
use ypf_fleet_fuel_distribut.Network.Connection.Active.{
  IsActive, same_addr_self, find-insert_handler, find-remove_handler,
}

-- What a connected side's send to an address does, by what the map has for it.
found_send :
    (now : ℕ) (start_error : Option ConnectionError) (c : Connection) (address : SocketAddr)
    (h : Handler)
    → c.connected ≡ true
    → find_handler address c.active ≡ some h
    → send now start_error c address ≡ send_by_handler now c address
unfolding send
found_send now start_error c address h connected found = ground (arith, connected, found)

find-add_handler_from :
    (active : Active) (handler : Handler) (max_conns : ℕ)
    → find_handler handler.address (add_handler_from active handler max_conns) ≡ some handler
unfolding add_handler_from
find-add_handler_from active handler max_conns = ground (
  arith,
  find-insert_handler handler (remove_last_recently_used active),
  find-insert_handler handler active,
)

find-stop_all :
    (address : SocketAddr) (active : Active) (h : Handler)
    → find_handler address active ≡ some h
    → find_handler address (stop_all active) ≡ some (stop h)
unfolding find_handler stop_all
find-stop_all address [] h found = absurd (cc)
find-stop_all address (g ∷ active) h found = ground (arith, find-stop_all address active h)

missing-stop_all :
    (address : SocketAddr) (active : Active)
    → find_handler address active ≡ none
    → find_handler address (stop_all active) ≡ none
unfolding find_handler stop_all
missing-stop_all address [] missing = refl
missing-stop_all address (g ∷ active) missing = ground (arith, missing-stop_all address active)

stop_all-IsActive : (active : Active) → IsActive active → IsActive (stop_all active)
unfolding stop_all
stop_all-IsActive [] distinct = tt
stop_all-IsActive (h ∷ active) distinct =
    (missing-stop_all h.address active distinct.0, stop_all-IsActive active distinct.1)

-- `send` never runs into the missing handler, whatever the map and the start of a handler.
pub send_never_panics :
    (now : ℕ) (start_error : Option ConnectionError) (c : Connection) (address : SocketAddr)
    → (send now start_error c address).1 ≢ panicked
unfolding send send_by_handler
send_never_panics now start_error c address =
    ground (arith, find-add_handler_from c.active (started address now) c.max_conns)

stopped_send :
    (now : ℕ) (c : Connection) (address : SocketAddr) (h : Handler)
    → find_handler address c.active ≡ some h
    → h.is_running ≡ false
    → send_by_handler now c address ≡ (
      record c { active = remove_handler address c.active },
      failed (connection_lost_with h.address),
    )
unfolding send_by_handler
stopped_send now c address h found stopped = ground (arith, found, stopped)

new_send :
    (now : ℕ) (c : Connection) (address : SocketAddr)
    → c.connected ≡ true
    → find_handler address c.active ≡ none
    → (send now none c address).1 ≡ sent
unfolding send send_by_handler
new_send now c address connected missing =
    ground
      (arith, connected, missing, find-add_handler_from c.active (started address now) c.max_conns)

-- Between a disconnection and the next reconnection every handler stops and none leaves the map. So
-- the first send to a peer that had a handler fails as if the peer were lost, and its message is not
-- sent; the second send starts a new handler and succeeds, if the peer accepts it.
pub reconnected_send_fails :
    (now later : ℕ) (start_error : Option ConnectionError) (c : Connection) (h : Handler)
    → IsActive c.active
    → find_handler h.address c.active ≡ some h
    → let back = (reconnect none (disconnect c)).0 in
      let first = send now start_error back h.address in
      let second = send later none first.0 h.address in
      (first.1 ≡ failed (connection_lost_with h.address)) × (second.1 ≡ sent)
unfolding reconnect disconnect
reconnected_send_fails now later start_error c h distinct found =
    let back = (reconnect none (disconnect c)).0 in
    let stopped = find-stop_all h.address c.active h found in
    let removed = record back { active = remove_handler h.address back.active } in
    let gone : find_handler h.address removed.active ≡ none =
      find-remove_handler h.address h.address back.active (stop_all-IsActive c.active distinct)
      ∙ rw (same_addr_self h.address) refl in
    rw
      (
        found_send now start_error back h.address (stop h) refl stopped,
        stopped_send now back h.address (stop h) stopped refl,
      )
      (refl, new_send later removed h.address refl gone)
