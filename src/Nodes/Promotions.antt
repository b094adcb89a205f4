-- ===== src/Nodes/Promotions.antt =====
-- A replica that takes over between the log and the execution of an operation:
-- server/src/node/leader.rs, replica.rs and node.rs.
pub mod Ids
use ypf_fleet_fuel_distribut.Prelude.{
  Bool, ℕ, ◌+◌, ◌^◌, ◌<◌, ◌≤◌, ◌≡◌, ◌∙◌, refl, true, false, Option, some, List, [], ◌∷◌, ◌++◌,
  arith, lookup, insert, lookup-insert_self, lookup-erase_ne, append-nil,
}
use ypf_fleet_fuel_distribut.Domain.{SocketAddr, Operation, OperationResult, VerifyError, Message}
use ypf_fleet_fuel_distribut.Float.{F32}
use ypf_fleet_fuel_distribut.Actors.Messages.{ActorEvent}
use ypf_fleet_fuel_distribut.Nodes.Effects.{
  NodeEffect, send, execute, send_each, get_id_given_addr, new_pending,
}
use ypf_fleet_fuel_distribut.Nodes.Leader.{Leader, peers_of, handle_request}
use ypf_fleet_fuel_distribut.Nodes.Replica.{Replica, into_leader}
use ypf_fleet_fuel_distribut.Nodes.Replica as OfReplica
use ypf_fleet_fuel_distribut.Nodes.Replica.Log.{after_log, log_commits}
use ypf_fleet_fuel_distribut.Nodes.Loop.{
  Outside, NodeEvent, from_node, from_database, receive_failed, connection_lost_with, take_event,
  after_turn, loop_turn, handle_node_msg, handle_actor_event,
}
use ypf_fleet_fuel_distribut.Nodes.Loop.Roles.{
  NodeRuntime, leading, following, runs, runtime_turn, run_node_runtime,
}
use ypf_fleet_fuel_distribut.Nodes.Elections.{OthersLower, without_leader, leader_lost}
use ypf_fleet_fuel_distribut.Nodes.Promotions.Ids.{
  UpTo, highest_op_id-found, insert-UpTo, erase-UpTo,
}

run_first :
    (hash : SocketAddr → ℕ) (a b : NodeRuntime) (out : Outside) (event : NodeEvent)
    (turns : List (Outside × NodeEvent)) (now : List NodeEffect)
    → runtime_turn hash a out event ≡ (b, now, runs)
    → run_node_runtime hash a ((out, event) ∷ turns)
      ≡ (let (c, later, end) = run_node_runtime hash b turns in (c, now ++ later, end))
unfolding run_node_runtime
run_first hash a b out event turns now e = ground (arith, e)

run_end : (hash : SocketAddr → ℕ) (a : NodeRuntime) → run_node_runtime hash a [] ≡ (a, [], runs)
unfolding run_node_runtime
run_end hash a = refl

logged_turn :
    (hash : SocketAddr → ℕ) (r : Replica) (out : Outside) (op_id : ℕ) (op op' : Operation)
    → lookup op_id r.operations ≡ some op
    → 1 ≤ op_id
    → op_id + 1 < 2 ^ 32
    → runtime_turn hash (following r) out (from_node (Message.log (op_id + 1) op'))
      ≡ (following (after_log r op_id op'), execute op_id op ∷ [], runs)
unfolding runtime_turn loop_turn take_event after_turn handle_node_msg
logged_turn hash r out op_id op op' e one small =
    rw (log_commits out.reaches r op_id op op' e one small) refl

acked_turn :
    (hash : SocketAddr → ℕ) (r : Replica) (out : Outside) (op_id account_id card_id : ℕ)
    (amount : F32) (offline : Bool) (result : OperationResult) (success : Bool)
    (error : Option VerifyError)
    → op_id + 1 < 2 ^ 32
    → out.reaches r.leader_addr ≡ true
    → let op = Operation.charge account_id card_id amount offline in
      runtime_turn hash
        (following r)
        out
        (from_database (ActorEvent.operation_result op_id op result success error))
      ≡ (following r, send (Message.ack (op_id + 1)) r.leader_addr ∷ [], runs)
unfolding runtime_turn loop_turn take_event after_turn handle_actor_event
    OfReplica.handle_operation_result
acked_turn hash r out op_id account_id card_id amount offline result success error small reached =
    ground (arith, reached)

request_stored :
    (reaches : SocketAddr → Bool) (l : Leader) (id req_id : ℕ) (op : Operation)
    (client : SocketAddr)
    → l.current_op_id ≡ id
    → lookup id (handle_request reaches l req_id op client).0.operations
      ≡ some (new_pending op client req_id)
unfolding handle_request
request_stored reaches l id req_id op client e =
    ground
      (arith, e, lookup-insert_self l.current_op_id (new_pending op client req_id) l.operations)

next_stored :
    (r : Replica) (op_id : ℕ) (op' : Operation)
    → lookup (op_id + 1) (after_log r op_id op').operations ≡ some op'
next_stored r op_id op' =
    lookup-erase_ne (op_id + 1) op_id (insert (op_id + 1) op' r.operations) (omega arith)
    ∙ lookup-insert_self (op_id + 1) op' r.operations

next_id :
    (r : Replica) (op_id : ℕ) (op' : Operation)
    → UpTo op_id r.operations
    → (into_leader (without_leader (after_log r op_id op'))).current_op_id ≡ op_id + 1
unfolding into_leader
next_id r op_id op' up =
    highest_op_id-found (op_id + 1) (after_log r op_id op').operations op' (next_stored r op_id op')
      (erase-UpTo (op_id + 1) op_id (insert (op_id + 1) op' r.operations)
        (insert-UpTo op_id op' r.operations up))

-- The three turns: the log, the result, the loss of the leader.
promoted_run :
    (hash : SocketAddr → ℕ) (r : Replica) (logs done lost : Outside) (op_id account_id card_id : ℕ)
    (amount : F32) (offline : Bool) (op' : Operation) (result : OperationResult) (success : Bool)
    (error : Option VerifyError)
    → lookup op_id r.operations ≡ some (Operation.charge account_id card_id amount offline)
    → 1 ≤ op_id
    → op_id + 1 < 2 ^ 32
    → done.reaches r.leader_addr ≡ true
    → r.election_in_progress ≡ false
    → lost.fault ≡ connection_lost_with r.leader_addr
    → lookup (get_id_given_addr hash r.leader_addr) r.cluster ≡ some r.leader_addr
    → OthersLower r.id r.leader_addr r.cluster
    → let op = Operation.charge account_id card_id amount offline in
      run_node_runtime hash (following r) (
        (logs, from_node (Message.log (op_id + 1) op'))
        ∷ (done, from_database (ActorEvent.operation_result op_id op result success error))
        ∷ (lost, receive_failed)
        ∷ [])
      ≡ (
        leading (into_leader (without_leader (after_log r op_id op'))),
        execute op_id op
            ∷ send (Message.ack (op_id + 1)) r.leader_addr
            ∷ send_each
                (Message.coordinator r.id r.address)
                (peers_of r.id (without_leader r).cluster),
        runs,
      )
promoted_run hash r logs done lost op_id account_id card_id amount offline op' result success error
      logged one small reached idle fault known lower =
    let op = Operation.charge account_id card_id amount offline in
    let r' = after_log r op_id op' in
    let l = into_leader (without_leader r') in
    let sent =
      send_each (Message.coordinator r.id r.address) (peers_of r.id (without_leader r).cluster) in
    let event = from_database (ActorEvent.operation_result op_id op result success error) in
    rw
      (
        run_first hash (following r) (following r') logs (from_node (Message.log (op_id + 1) op'))
            ((done, event) ∷ (lost, receive_failed) ∷ []) (execute op_id op ∷ [])
            (logged_turn hash r logs op_id op op' logged one small),
        run_first hash (following r') (following r') done event ((lost, receive_failed) ∷ [])
            (send (Message.ack (op_id + 1)) r.leader_addr ∷ [])
            (acked_turn hash r' done op_id account_id card_id amount offline result success error
              small reached),
        run_first hash (following r') (leading l) lost receive_failed [] sent
            (leader_lost hash r' lost idle fault known lower),
        run_end hash (leading l),
        append-nil sent,
      )
      refl

-- A replica whose last logged operation, `op_id`, is a charge gets the next one, executes the charge,
-- and, when the database is done, acknowledges the next one. Then its leader is lost, and it takes
-- over: the effects of the three turns are these, and the announcements to the others. So it has
-- acknowledged the next operation, has not executed it, does not have it any more, and gives its id to
-- the first request that it gets. The ack reaches the leader, no election is under way, the leader is
-- a member under its own id, no other member has a higher id than the replica, and no id overflows.
pub promotion_forgets_logged :
    (hash : SocketAddr → ℕ) (r : Replica) (logs done lost : Outside) (op_id account_id card_id : ℕ)
    (amount : F32) (offline : Bool) (op' : Operation) (result : OperationResult) (success : Bool)
    (error : Option VerifyError) (reaches : SocketAddr → Bool) (req_id : ℕ) (op'' : Operation)
    (client : SocketAddr)
    → lookup op_id r.operations ≡ some (Operation.charge account_id card_id amount offline)
    → UpTo op_id r.operations
    → 1 ≤ op_id
    → op_id + 1 < 2 ^ 32
    → done.reaches r.leader_addr ≡ true
    → r.election_in_progress ≡ false
    → lost.fault ≡ connection_lost_with r.leader_addr
    → lookup (get_id_given_addr hash r.leader_addr) r.cluster ≡ some r.leader_addr
    → OthersLower r.id r.leader_addr r.cluster
    → let op = Operation.charge account_id card_id amount offline in
      let (node, effects, course) = run_node_runtime hash (following r) (
        (logs, from_node (Message.log (op_id + 1) op'))
        ∷ (done, from_database (ActorEvent.operation_result op_id op result success error))
        ∷ (lost, receive_failed)
        ∷ []) in
      let l = into_leader (without_leader (after_log r op_id op')) in
      (node ≡ leading l)
      × (course ≡ runs)
      × (effects
          ≡ execute op_id op
            ∷ send (Message.ack (op_id + 1)) r.leader_addr
            ∷ send_each
                (Message.coordinator r.id r.address)
                (peers_of r.id (without_leader r).cluster))
      × (lookup (op_id + 1) (after_log r op_id op').operations ≡ some op')
      × (l.operations ≡ [])
      × (lookup (op_id + 1) (handle_request reaches l req_id op'' client).0.operations
          ≡ some (new_pending op'' client req_id))
unfolding into_leader
promotion_forgets_logged hash r logs done lost op_id account_id card_id amount offline op' result
      success error reaches req_id op'' client logged up one small reached idle fault known lower =
    let op = Operation.charge account_id card_id amount offline in
    let l = into_leader (without_leader (after_log r op_id op')) in
    let stored = next_stored r op_id op' in
    let next = next_id r op_id op' up in
    rw
      (promoted_run hash r logs done lost op_id account_id card_id amount offline op' result success
        error logged one small reached idle fault known lower)
      (refl, refl, refl, stored, refl, request_stored reaches l (op_id + 1) req_id op'' client next)
