-- ===== src/Nodes/Requests.antt =====
-- Requests from the leader to the log of a replica: server/src/node/leader.rs and replica.rs.
use ypf_fleet_fuel_distribut.Prelude.{
  ℕ, ◌+◌, ◌^◌, ◌<◌, ◌≤◌, ◌≡◌, ◌∙◌, refl, Bool, true, some, List, [], ◌∷◌, ◌++◌, arith, length,
  lookup, All, if◌then◌else◌,
}
use ypf_fleet_fuel_distribut.Domain.{SocketAddr, Operation, Message}
use ypf_fleet_fuel_distribut.Nodes.Effects.{
  NodeEffect, send, execute, charge_result, disconnect, reconnect, same_addr, send_each,
}
use ypf_fleet_fuel_distribut.Nodes.Leader.{Leader, peers_of, handle_request}
use ypf_fleet_fuel_distribut.Nodes.Leader.Requests.{logged, logged_request}
use ypf_fleet_fuel_distribut.Nodes.Replica.{Replica}
use ypf_fleet_fuel_distribut.Nodes.Replica as OfReplica
use ypf_fleet_fuel_distribut.Nodes.Replica.Log.{run_logs, all_but_last, logs_executed_in_order}
use ypf_fleet_fuel_distribut.Nodes.Loop.{Outside, handle_node_msg}
use ypf_fleet_fuel_distribut.Nodes.Loop.Roles.{replica_node}

-- Requests that a leader handles one after the other: their ids, operations and clients.
unfoldable pub run_requests :
    (SocketAddr → Bool) → Leader → List (ℕ × Operation × SocketAddr) → Leader × List NodeEffect
run_requests reaches l [] = (l, [])
run_requests reaches l ((req_id, op, client) ∷ requests) =
    let (l', now, _) = handle_request reaches l req_id op client in
    let (l'', later) = run_requests reaches l' requests in (l'', now ++ later)

-- The messages that are sent to an address.
unfoldable pub received : SocketAddr → List NodeEffect → List Message
received addr [] = []
received addr (send m to ∷ effects) =
    let rest = received addr effects in if same_addr to addr then m ∷ rest else rest
received addr (execute _ _ ∷ effects) = received addr effects
received addr (charge_result _ _ _ ∷ effects) = received addr effects
received addr (disconnect ∷ effects) = received addr effects
received addr (reconnect ∷ effects) = received addr effects

-- Messages that a replica takes one after the other.
unfoldable pub receive_all :
    (SocketAddr → ℕ) → Outside → Replica → List Message → Replica × List NodeEffect
receive_all hash out r [] = (r, [])
receive_all hash out r (m ∷ ms) =
    let (r', now, _) = handle_node_msg (replica_node hash) out r m in
    let (r'', later) = receive_all hash out r' ms in (r'', now ++ later)

abbrev pub operations_of : List (ℕ × Operation × SocketAddr) → List Operation
operations_of [] = []
operations_of ((_, op, _) ∷ requests) = op ∷ operations_of requests

length-operations_of :
    (requests : List (ℕ × Operation × SocketAddr))
    → length (operations_of requests) ≡ length requests
length-operations_of [] = refl
length-operations_of ((_, op, _) ∷ requests) = ground (arith, length-operations_of requests)

-- How often an address is in a list.
abbrev pub times : SocketAddr → List SocketAddr → ℕ
times addr [] = 0
times addr (a ∷ addrs) = if same_addr a addr then times addr addrs + 1 else times addr addrs

abbrev logs_from : ℕ → List Operation → List Message
logs_from op_id [] = []
logs_from op_id (op ∷ ops) = Message.log op_id op ∷ logs_from (op_id + 1) ops

received-append :
    (addr : SocketAddr) (xs ys : List NodeEffect)
    → received addr (xs ++ ys) ≡ received addr xs ++ received addr ys
unfolding received
received-append addr [] ys = refl
received-append addr (send m to ∷ xs) ys = ground (arith, received-append addr xs ys)
received-append addr (execute _ _ ∷ xs) ys = received-append addr xs ys
received-append addr (charge_result _ _ _ ∷ xs) ys = received-append addr xs ys
received-append addr (disconnect ∷ xs) ys = received-append addr xs ys
received-append addr (reconnect ∷ xs) ys = received-append addr xs ys

received_never :
    (addr : SocketAddr) (m : Message) (addrs : List SocketAddr)
    → times addr addrs ≡ 0
    → received addr (send_each m addrs) ≡ []
unfolding received send_each
received_never addr m [] h = refl
received_never addr m (a ∷ addrs) h = ground (arith, received_never addr m addrs)

pub received_once :
    (addr : SocketAddr) (m : Message) (addrs : List SocketAddr)
    → times addr addrs ≡ 1
    → received addr (send_each m addrs) ≡ m ∷ []
unfolding received send_each
received_once addr m [] h = ground arith
received_once addr m (a ∷ addrs) h =
    ground (arith, received_once addr m addrs, received_never addr m addrs)

requests_logged :
    (reaches : SocketAddr → Bool) (l : Leader) (addr : SocketAddr)
    (requests : List (ℕ × Operation × SocketAddr))
    → 3 ≤ length l.cluster
    → All (λ a. reaches a ≡ true) (peers_of l.id l.cluster)
    → times addr (peers_of l.id l.cluster) ≡ 1
    → l.current_op_id + length requests < 2 ^ 32
    → received addr (run_requests reaches l requests).1
      ≡ logs_from l.current_op_id (operations_of requests)
unfolding run_requests received
requests_logged reaches l addr [] three reached once small = refl
requests_logged reaches l addr ((req_id, op, client) ∷ requests) three reached once small =
    let l' : Leader = logged l req_id op client in
    rw (logged_request reaches l req_id op client three reached (omega arith), run_requests)
      (received-append addr (send_each (Message.log l.current_op_id op) (peers_of l.id l.cluster))
          (run_requests reaches l' requests).1
        ∙ rw
            (
              received_once addr (Message.log l.current_op_id op) (peers_of l.id l.cluster) once,
              requests_logged reaches l' addr requests three reached once (omega arith),
            )
            refl)

receive_all-logs :
    (hash : SocketAddr → ℕ) (out : Outside) (r : Replica) (op_id : ℕ) (ops : List Operation)
    → (receive_all hash out r (logs_from op_id ops)).1 ≡ (run_logs out.reaches r op_id ops).1
unfolding receive_all run_logs handle_node_msg
receive_all-logs hash out r op_id [] = refl
receive_all-logs hash out r op_id (op ∷ ops) = ground (
  arith,
  receive_all-logs hash out (OfReplica.handle_log out.reaches r op_id op).0 (op_id + 1) ops,
)

-- A leader of two or more others, all of which it reaches, handles requests one after the other, and one
-- of the others, a replica that has the operation logged that came before them, takes what it is
-- sent. The replica executes that operation and then theirs but the last, each once, in the order
-- in which the leader got them. The cluster stays as it is, the leader's next id is the one after the
-- operation's, and no id wraps.
pub replica_follows_requests :
    (hash : SocketAddr → ℕ) (reaches : SocketAddr → Bool) (out : Outside) (l : Leader) (r : Replica)
    (op_id : ℕ) (op : Operation) (requests : List (ℕ × Operation × SocketAddr))
    → 3 ≤ length l.cluster
    → All (λ a. reaches a ≡ true) (peers_of l.id l.cluster)
    → times r.address (peers_of l.id l.cluster) ≡ 1
    → lookup op_id r.operations ≡ some op
    → 1 ≤ op_id
    → l.current_op_id ≡ op_id + 1
    → op_id + 1 + length requests < 2 ^ 32
    → (receive_all hash out r (received r.address (run_requests reaches l requests).1)).1
      ≡ all_but_last op_id op (operations_of requests)
replica_follows_requests hash reaches out l r op_id op requests three reached once e one next
      small =
    rw
      (
        requests_logged reaches l r.address requests three reached once (omega arith),
        next,
        receive_all-logs hash out r (op_id + 1) (operations_of requests),
      )
      (logs_executed_in_order out.reaches r op_id op (operations_of requests) e one
        (rw (length-operations_of requests) (omega arith)))
