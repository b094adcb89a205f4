-- ===== src/Nodes/Replica/Log.antt =====
-- What a replica executes, and what it forgets: server/src/node/replica.rs.
use ypf_fleet_fuel_distribut.Prelude.{
  ℕ, ◌+◌, ◌^◌, ◌<◌, ◌≤◌, ◌≡◌, refl, ap, ◌∙◌, Bool, some, List, [], ◌∷◌, ◌++◌, arith, length, lookup,
  insert, erase, lookup-insert, lookup-insert_self, lookup-erase_ne,
}
use ypf_fleet_fuel_distribut.Domain.{SocketAddr, Operation}
use ypf_fleet_fuel_distribut.Nodes.Effects.{NodeEffect, execute, returned, no_change}
use ypf_fleet_fuel_distribut.Nodes.Replica.{Replica, handle_log}

-- Log messages with consecutive ids, from `op_id` on.
unfoldable pub run_logs :
    (SocketAddr → Bool) → Replica → ℕ → List Operation → Replica × List NodeEffect
run_logs reaches r op_id [] = (r, [])
run_logs reaches r op_id (op ∷ ops) =
    let (r', now, _) = handle_log reaches r op_id op in
    let (r'', later) = run_logs reaches r' (op_id + 1) ops in (r'', now ++ later)

-- The operation `op_id`, and those that follow it, but the last.
abbrev pub all_but_last : ℕ → Operation → List Operation → List NodeEffect
all_but_last op_id op [] = []
all_but_last op_id op (op' ∷ ops) = execute op_id op ∷ all_but_last (op_id + 1) op' ops

abbrev pub after_log : Replica → ℕ → Operation → Replica
after_log r op_id op' = record r { operations = erase op_id (insert (op_id + 1) op' r.operations) }

pub log_commits :
    (reaches : SocketAddr → Bool) (r : Replica) (op_id : ℕ) (op op' : Operation)
    → lookup op_id r.operations ≡ some op
    → 1 ≤ op_id
    → op_id + 1 < 2 ^ 32
    → handle_log reaches r (op_id + 1) op'
      ≡ (after_log r op_id op', execute op_id op ∷ [], returned no_change)
unfolding handle_log
log_commits reaches r op_id op op' e one small =
    ground (arith, lookup-insert op_id (op_id + 1) op' r.operations)

-- A replica that has logged an operation and gets the following ones, in the order of their ids,
-- executes each of them but the last, once and in that order, and has the last in its log. No id
-- wraps.
pub logs_executed_in_order :
    (reaches : SocketAddr → Bool) (r : Replica) (op_id : ℕ) (op : Operation) (ops : List Operation)
    → lookup op_id r.operations ≡ some op
    → 1 ≤ op_id
    → op_id + length ops < 2 ^ 32
    → (run_logs reaches r (op_id + 1) ops).1 ≡ all_but_last op_id op ops
unfolding run_logs
logs_executed_in_order reaches r op_id op [] e one small = refl
logs_executed_in_order reaches r op_id op (op' ∷ ops) e one small =
    rw (log_commits reaches r op_id op op' e one (omega arith), run_logs)
      (ap (◌∷◌ (execute op_id op)) (
        logs_executed_in_order reaches (after_log r op_id op') (op_id + 1) op' ops
          (lookup-erase_ne (op_id + 1) op_id (insert (op_id + 1) op' r.operations) (omega arith)
            ∙ lookup-insert_self (op_id + 1) op' r.operations)
          (omega arith) (omega arith)))
