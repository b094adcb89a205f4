-- ===== src/Nodes/Effects.antt =====
-- What the nodes of server/src/node/ share: pending_operation.rs, utils.rs, and what a handler does
-- to its connection, its database and its station.
use ypf_fleet_fuel_distribut.Prelude.{
  ℕ, ◌+◌, ◌%◌, Bool, true, false, ◌&&◌, Option, List, [], ◌∷◌, ◌==◌, if◌then◌else◌,
}
use ypf_fleet_fuel_distribut.Domain.{SocketAddr, Operation, VerifyError, Message}

pub record PendingOperation : Type 0 where
  pub op : Operation
  pub client_addr : SocketAddr
  pub ack_count : ℕ
  pub request_id : ℕ

-- `PendingOperation::new`
unfoldable pub new_pending : Operation → SocketAddr → ℕ → PendingOperation
new_pending op client_addr request_id = record {
  op = op;
  client_addr = client_addr;
  ack_count = 0;
  request_id = request_id;
}

pub data RoleChange : Type 0 where
  no_change promote_to_leader : RoleChange
  demote_to_replica : (new_leader_addr : SocketAddr) → RoleChange

pub data NodeEffect : Type 0 where
  send : Message → (addr : SocketAddr) → NodeEffect
  -- `db.send(DatabaseCmd::Execute { .. })`
  execute : (op_id : ℕ) (operation : Operation) → NodeEffect
  -- `station.send(NodeToStationMsg::ChargeResult { .. })`
  charge_result : (request_id : ℕ) (allowed : Bool) (error : Option VerifyError) → NodeEffect
  disconnect reconnect : NodeEffect

-- How a handler ends: it returns, it returns the error of a send, or it panics.
pub data Ending : Type 0 where
  returned : RoleChange → Ending
  failed panicked : Ending

abbrev pub is_panic : Ending → Bool
is_panic panicked = true
is_panic failed = false
is_panic (returned _) = false

-- `==` on addresses
abbrev pub same_addr : SocketAddr → SocketAddr → Bool
same_addr (SocketAddr.v4 a b c d p) (SocketAddr.v4 a' b' c' d' p') =
    a == a' && b == b' && c == c' && d == d' && p == p'
same_addr (SocketAddr.v6 ip p) (SocketAddr.v6 ip' p') = ip == ip' && p == p'
same_addr _ _ = false

-- `get_id_given_addr`; `hash` is the standard library's `DefaultHasher` on the address.
unfoldable pub get_id_given_addr : (SocketAddr → ℕ) → SocketAddr → ℕ
get_id_given_addr hash addr = hash addr % 100000 + 1

-- Sends to one address after the other, until a send fails: the second part is false then.
unfoldable pub send_all : (SocketAddr → Bool) → Message → List SocketAddr → List NodeEffect × Bool
send_all reaches m [] = ([], true)
send_all reaches m (addr ∷ addrs) =
    let rest = send_all reaches m addrs in
    if reaches addr then (send m addr ∷ rest.0, rest.1) else (send m addr ∷ [], false)

-- Sends to all addresses; a failure is only printed.
unfoldable pub send_each : Message → List SocketAddr → List NodeEffect
send_each m [] = []
send_each m (addr ∷ addrs) = send m addr ∷ send_each m addrs
