-- ===== src/Nodes/Leader/Requests.antt =====
-- Requests of clients and their results: server/src/node/leader.rs.
use ypf_fleet_fuel_distribut.Prelude.{
  ◌*◌, ltb, ◌<◌, lookup-erase-insert, insert-insert, All, ◌≤◌, ℕ, ◌^◌, ◌+◌, ◌≡◌, ◌≢◌, refl, ap, ◌∙◌,
  Bool, true, false, none, some, List, [], ◌∷◌, arith, length, lookup, insert, erase,
  lookup-insert_self, if◌then◌else◌, leb,
}
use ypf_fleet_fuel_distribut.Nodes.Leader.{
  Leader, handle_request, handle_operation_result, peers_of, needed_acks,
}
use ypf_fleet_fuel_distribut.Domain.{SocketAddr, Operation, OperationResult, Message}
use ypf_fleet_fuel_distribut.Nodes.Effects.{
  execute, send, PendingOperation, new_pending, returned, panicked, no_change, same_addr, send_all,
  send_each,
}
use ypf_fleet_fuel_distribut.Float.{F32}
use ypf_fleet_fuel_distribut.Nodes.Leader.Acks.{run_acks, acks_execute_once}

-- A node that is alone executes a request at once, with the id that the next request will have, too.
alone_request :
    (reaches : SocketAddr → Bool) (l : Leader) (req_id : ℕ) (op : Operation) (client : SocketAddr)
    → length l.cluster ≡ 1
    → handle_request reaches l req_id op client ≡ (
      record l { operations = insert l.current_op_id (new_pending op client req_id) l.operations },
      execute l.current_op_id op ∷ [],
      returned no_change,
    )
unfolding handle_request
alone_request reaches l req_id op client alone = ground arith

-- The result of a pending charge of another client, and of an operation that is not pending.
charge_answered :
    (reaches again : SocketAddr → Bool) (l : Leader) (op_id account_id card_id : ℕ) (amount : F32)
    (p : PendingOperation) (result : OperationResult)
    → op_id ≢ 0
    → lookup op_id l.operations ≡ some p
    → same_addr p.client_addr l.address ≡ false
    → let (l', sent, _) =
        handle_operation_result reaches again l op_id
          (Operation.charge account_id card_id amount false)
          result in
      (l' ≡ record l { operations = erase op_id l.operations })
      × (sent ≡ send (Message.response p.request_id result) p.client_addr ∷ [])
unfolding handle_operation_result
charge_answered reaches again l op_id account_id card_id amount p result id e other = ground arith

unknown_result_panics :
    (reaches again : SocketAddr → Bool) (l : Leader) (op_id : ℕ) (op : Operation)
    (result : OperationResult)
    → op_id ≢ 0
    → lookup op_id l.operations ≡ none
    → (handle_operation_result reaches again l op_id op result).2 ≡ panicked
unfolding handle_operation_result
unknown_result_panics reaches again l op_id op result id e = ground arith

-- A node that is alone gives two requests the same id if the second one comes before the first one has
-- a result. The result of the first, a charge, is then sent to the client of the second, and the result
-- of the second panics the node. No request with that id is pending before.
pub alone_second_request_panics :
    (reaches again : SocketAddr → Bool) (l : Leader) (req_id req_id' account_id card_id : ℕ)
    (amount : F32) (op' : Operation) (client client' : SocketAddr)
    (result result' : OperationResult)
    → length l.cluster ≡ 1
    → l.current_op_id ≢ 0
    → lookup l.current_op_id l.operations ≡ none
    → same_addr client' l.address ≡ false
    → let op = Operation.charge account_id card_id amount false in
      let (first, started, _) = handle_request reaches l req_id op client in
      let (second, started', _) = handle_request reaches first req_id' op' client' in
      let (third, sent, _) =
        handle_operation_result reaches again second l.current_op_id op result in
      (started ≡ execute l.current_op_id op ∷ [])
      × (started' ≡ execute l.current_op_id op' ∷ [])
      × (sent ≡ send (Message.response req_id' result) client' ∷ [])
      × ((handle_operation_result reaches again third l.current_op_id op' result').2 ≡ panicked)
unfolding new_pending
alone_second_request_panics reaches again l req_id req_id' account_id card_id amount op' client
      client' result result' alone id fresh other =
    let op = Operation.charge account_id card_id amount false in
    let p = new_pending op client req_id in
    let q = new_pending op' client' req_id' in
    let once = insert l.current_op_id p l.operations in
    let twice : Leader = record l { operations = insert l.current_op_id q once } in
    let answered =
      charge_answered reaches again twice l.current_op_id account_id card_id amount q result id
        (lookup-insert_self l.current_op_id q once) other in
    rw
      (
        alone_request reaches l req_id op client alone,
        alone_request reaches (record l { operations = once }) req_id' op' client' alone,
        answered.0,
      )
      (
        refl,
        refl,
        answered.1,
        unknown_result_panics reaches again _ l.current_op_id op' result' id (
            ap (λ m. lookup l.current_op_id (erase l.current_op_id m))
              (insert-insert l.current_op_id p q l.operations)
            ∙ lookup-erase-insert l.current_op_id q l.operations fresh),
      )

send_all-reached :
    (reaches : SocketAddr → Bool) (m : Message) (addrs : List SocketAddr)
    → All (λ a. reaches a ≡ true) addrs
    → send_all reaches m addrs ≡ (send_each m addrs, true)
unfolding send_all send_each
send_all-reached reaches m [] h = refl
send_all-reached reaches m (addr ∷ addrs) h =
    ground (arith, h.0, send_all-reached reaches m addrs h.1)

abbrev pub logged : Leader → ℕ → Operation → SocketAddr → Leader
logged l req_id op client = record l {
  operations = insert l.current_op_id (new_pending op client req_id) l.operations;
  current_op_id = l.current_op_id + 1;
}

pub logged_request :
    (reaches : SocketAddr → Bool) (l : Leader) (req_id : ℕ) (op : Operation) (client : SocketAddr)
    → 3 ≤ length l.cluster
    → All (λ a. reaches a ≡ true) (peers_of l.id l.cluster)
    → l.current_op_id + 1 < 2 ^ 32
    → handle_request reaches l req_id op client ≡ (
      logged l req_id op client,
      send_each (Message.log l.current_op_id op) (peers_of l.id l.cluster),
      returned no_change,
    )
unfolding handle_request
logged_request reaches l req_id op client three reached small = ground (
  arith,
  send_all-reached reaches (Message.log l.current_op_id op) (peers_of l.id l.cluster) reached,
)

-- The acks that are needed are those of a strict majority of the members, with the leader.
needed_acks-majority : (n k : ℕ) → leb (needed_acks n) k ≡ ltb n (2 * (k + 1))
needed_acks-majority n k = ground arith

-- A request to a leader of two or more others, all of which it reaches, is sent to each of them to log,
-- once and in order, and to nobody else; nothing is executed yet, and the next request has the next
-- id. After `k` acks, if the cluster has not changed, the operation has been executed exactly once if
-- the leader and `k` others are more than half of the members, and not at all if not. The next id
-- is a `u32`, and the number of members a `usize`.
pub request_executes_once :
    (reaches : SocketAddr → Bool) (l : Leader) (req_id k : ℕ) (op : Operation) (client : SocketAddr)
    → 3 ≤ length l.cluster
    → length l.cluster < 2 ^ 64
    → All (λ a. reaches a ≡ true) (peers_of l.id l.cluster)
    → l.current_op_id + 1 < 2 ^ 32
    → let (l', logs, ending) = handle_request reaches l req_id op client in
      (logs ≡ send_each (Message.log l.current_op_id op) (peers_of l.id l.cluster))
      × (ending ≡ returned no_change)
      × (l'.current_op_id ≡ l.current_op_id + 1)
      × ((run_acks l' l.current_op_id k).1
          ≡ (if ltb (length l.cluster) (2 * (k + 1)) then execute l.current_op_id op ∷ [] else []))
unfolding new_pending
request_executes_once reaches l req_id k op client three size reached small =
    rw
      (
        logged_request reaches l req_id op client three reached small,
        ← needed_acks-majority (length l.cluster) k,
      )
      (
        refl,
        refl,
        refl,
        acks_execute_once (logged l req_id op client) l.current_op_id k
            (new_pending op client req_id)
            (lookup-insert_self l.current_op_id (new_pending op client req_id) l.operations) refl
            three size,
      )
