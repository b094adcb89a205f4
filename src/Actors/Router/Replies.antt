-- ===== src/Actors/Router/Replies.antt =====
-- server/src/node/actors/actor_router.rs: the router's state, and what it does with the messages
-- of the accounts and cards. `none` is a panic, of `expect` on a missing error.
use ypf_fleet_fuel_distribut.Prelude.{
  ℕ, Bool, true, false, ◌&&◌, Option, none, some, List, [], ◌∷◌, ◌++◌, ◌==◌, if◌then◌else◌, length,
  HashMap, lookup, insert, erase,
}
use ypf_fleet_fuel_distribut.Float.{pos_zero}
use ypf_fleet_fuel_distribut.Domain.{
  SocketAddr, VerifyError, AccountSnapshot, CardSnapshot, Operation, OperationResult, ChargeResult,
  LimitResult,
}
use ypf_fleet_fuel_distribut.Actors.Messages.{
  CardKey, ActorEvent, RouterInternalMsg, Effect, to_node, operation_result, operation_completed,
  account_query_completed, account_snapshot_collected, card_snapshot_collected,
}

pub record PendingDatabaseSnapshot : Type 0 where
  pub addr : SocketAddr
  pub expected_accounts : ℕ
  pub expected_cards : ℕ
  pub accounts : List AccountSnapshot
  pub cards : List CardSnapshot

-- Of the two maps of addresses the keys, in the order of an iteration.
pub record ActorRouter : Type 0 where
  pub accounts : List ℕ
  pub cards : List CardKey
  pub operations : HashMap Operation
  pub pending_db_snapshots : HashMap PendingDatabaseSnapshot

-- `ActorRouter::new`
unfoldable pub new_router : ActorRouter
new_router = record { accounts = []; cards = []; operations = []; pending_db_snapshots = [] }

-- `ChargeResult` and `LimitResult` of a completion.
unfoldable pub charge_result : Bool → Option VerifyError → Option ChargeResult
charge_result true error = some ChargeResult.ok
charge_result false none = none
charge_result false (some e) = some (ChargeResult.failed e)

unfoldable pub limit_result : Bool → Option VerifyError → Option LimitResult
limit_result true error = some LimitResult.ok
limit_result false none = none
limit_result false (some e) = some (LimitResult.failed e)

-- The defensive answer to an operation that is not resolved by a completion.
empty_query : OperationResult
empty_query =
    OperationResult.account_query
      (record { account_id = 0; total_spent = pos_zero; per_card_spent = [] })

abbrev mapped : {A B : Type 0} → (A → B) → Option A → Option B
mapped f none = none
mapped f (some a) = some (f a)

-- The result of an operation that a card or an account has completed.
unfoldable pub completion_result : Operation → Bool → Option VerifyError → Option OperationResult
unfolding charge_result limit_result empty_query
completion_result (Operation.charge _ _ _ _) success error =
    mapped OperationResult.charge (charge_result success error)
completion_result (Operation.limit_account _ _) success error =
    mapped OperationResult.limit_account (limit_result success error)
completion_result (Operation.limit_card _ _ _) success error =
    mapped OperationResult.limit_card (limit_result success error)
completion_result (Operation.account_query _) success error = some empty_query
completion_result (Operation.bill _ _) success error = some empty_query
completion_result (Operation.get_database _) success error = some OperationResult.replace_database
completion_result (Operation.replace_database _) success error =
    some OperationResult.replace_database

complete_operation :
    ActorRouter → ℕ → Bool → Option VerifyError → Option (ActorRouter × List Effect)
unfolding completion_result
complete_operation r op_id success error = elim (lookup op_id r.operations) [
  | none ↦ some (r, to_node ActorEvent.debug ∷ [])
  | some operation ↦ elim (completion_result operation success error) [
    | none ↦ none
    | some result ↦ some (r, to_node (operation_result op_id operation result success error) ∷ [])
  ]
]

complete_query : ActorRouter → ℕ → OperationResult → ActorRouter × List Effect
complete_query r op_id result = elim (lookup op_id r.operations) [
  | none ↦ (r, to_node ActorEvent.debug ∷ [])
  | some operation ↦ (r, to_node (operation_result op_id operation result true none) ∷ [])
]

-- All fragments of the snapshot `p` have arrived.
abbrev pub is_complete : PendingDatabaseSnapshot → Bool
is_complete p = length p.accounts == p.expected_accounts && length p.cards == p.expected_cards

-- The snapshot that is sent once all has arrived.
abbrev pub snapshot_result : PendingDatabaseSnapshot → OperationResult
snapshot_result p =
    OperationResult.database_snapshot
      (record { addr = p.addr; accounts = p.accounts; cards = p.cards })

unfoldable pub try_complete_db_snapshot : ActorRouter → ℕ → ActorRouter × List Effect
unfolding complete_query
try_complete_db_snapshot r op_id = elim (lookup op_id r.pending_db_snapshots) [
  | none ↦ (r, [])
  | some p ↦
      if is_complete p
      then complete_query (record r { pending_db_snapshots = erase op_id r.pending_db_snapshots })
          op_id (snapshot_result p)
      else (r, [])
]

-- One more fragment for the pending snapshot of `op_id`.
collect_fragment :
    ActorRouter
    → ℕ
    → (PendingDatabaseSnapshot → PendingDatabaseSnapshot)
    → ActorRouter × List Effect
unfolding try_complete_db_snapshot
collect_fragment r op_id push = elim (lookup op_id r.pending_db_snapshots) [
  | none ↦ (r, to_node ActorEvent.debug ∷ [])
  | some p ↦
      try_complete_db_snapshot
        (record r { pending_db_snapshots = insert op_id (push p) r.pending_db_snapshots }) op_id
]

-- `Handler<RouterInternalMsg>::handle`
unfoldable pub handle_internal :
    ActorRouter → RouterInternalMsg → Option (ActorRouter × List Effect)
unfolding complete_operation complete_query collect_fragment
handle_internal r (operation_completed op_id success error) =
    complete_operation r op_id success error
handle_internal r (account_query_completed op_id account_id total_spent per_card_spent) = some (
    complete_query r op_id (
      OperationResult.account_query (record {
        account_id = account_id;
        total_spent = total_spent;
        per_card_spent = per_card_spent;
      })))
handle_internal r (account_snapshot_collected op_id snapshot) =
    some (collect_fragment r op_id λ p. record p { accounts = p.accounts ++ snapshot ∷ [] })
handle_internal r (card_snapshot_collected op_id snapshot) =
    some (collect_fragment r op_id λ p. record p { cards = p.cards ++ snapshot ∷ [] })
handle_internal r RouterInternalMsg.debug = some (r, to_node ActorEvent.debug ∷ [])
