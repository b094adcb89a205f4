-- ===== src/Nodes/Leader/Acks.antt =====
-- When an operation is executed: the acks of server/src/node/leader.rs.
use ypf_fleet_fuel_distribut.Prelude.{
  ℕ, zero, suc, ◌+◌, ◌^◌, ◌<◌, ◌≤◌, ◌≡◌, ◌≢◌, refl, ap, ◌∙◌, some, List, [], ◌∷◌, ◌++◌, arith,
  length, leb, if◌then◌else◌, lookup, insert, lookup-insert_self,
}
use native.Mathlib.Decide.{dec_lt}
use ypf_fleet_fuel_distribut.Nodes.Effects.{
  NodeEffect, execute, PendingOperation, is_panic, returned, no_change,
}
use ypf_fleet_fuel_distribut.Nodes.Leader.{Leader, handle_ack, needed_acks}

-- `k` acks of the operation, one after the other, up to a panic.
unfoldable pub run_acks : Leader → ℕ → ℕ → Leader × List NodeEffect
run_acks l op_id zero = (l, [])
run_acks l op_id (suc k) =
    let (l', now, ending) = handle_ack l op_id in
    let (l'', later) = run_acks l' op_id k in
    if is_panic ending then (l', now) else (l'', now ++ later)

abbrev acked : Leader → ℕ → PendingOperation → Leader
acked l op_id p = record l {
  operations = insert op_id (record p { ack_count = p.ack_count + 1 }) l.operations;
}

-- One ack that is not the decisive one, one that panics, and the decisive one.
ack_waits :
    (l : Leader) (op_id : ℕ) (p : PendingOperation)
    → lookup op_id l.operations ≡ some p
    → length l.cluster ≢ 2
    → 0 < length l.cluster
    → p.ack_count + 1 < 2 ^ 64
    → p.ack_count + 1 ≢ needed_acks (length l.cluster)
    → handle_ack l op_id ≡ (acked l op_id p, [], returned no_change)
unfolding handle_ack
ack_waits l op_id p e two members small more = ground arith

ack_panics :
    (l : Leader) (op_id k : ℕ) (p : PendingOperation)
    → lookup op_id l.operations ≡ some p
    → needed_acks (length l.cluster) ≤ p.ack_count
    → ¬ ((0 < length l.cluster) × (p.ack_count + 1 < 2 ^ 64))
    → (run_acks l op_id (suc k)).1 ≡ []
unfolding run_acks handle_ack
ack_panics l op_id k p e enough over = ground arith

ack_executes :
    (l : Leader) (op_id : ℕ) (p : PendingOperation)
    → lookup op_id l.operations ≡ some p
    → p.ack_count + 1 < 2 ^ 64
    → p.ack_count + 1 ≡ needed_acks (length l.cluster)
    → handle_ack l op_id ≡ (acked l op_id p, execute op_id p.op ∷ [], returned no_change)
unfolding handle_ack
ack_executes l op_id p e small last = ground arith

-- Once an operation has the needed acks or more, further acks execute nothing, since the count is
-- compared with `!=`: neither a second time, nor a first time where the number that is needed has
-- fallen to the acks that were there, because members were lost. The cluster has not two members.
pub late_acks_ignored :
    (l : Leader) (op_id k : ℕ) (p : PendingOperation)
    → lookup op_id l.operations ≡ some p
    → length l.cluster ≢ 2
    → needed_acks (length l.cluster) ≤ p.ack_count
    → (run_acks l op_id k).1 ≡ []
unfolding run_acks
late_acks_ignored l op_id zero p e two enough = refl
late_acks_ignored l op_id (suc k) p e two enough = elim (dec_lt 0 (length l.cluster)) [
  | no empty ↦ ack_panics l op_id k p e enough (λ h. empty h.0)
  | yes members ↦ elim (dec_lt (p.ack_count + 1) (2 ^ 64)) [
    | no over ↦ ack_panics l op_id k p e enough (λ h. over h.1)
    | yes small ↦
        rw (ack_waits l op_id p e two members small (omega arith), run_acks)
          (late_acks_ignored (acked l op_id p) op_id k (record p { ack_count = p.ack_count + 1 })
            (lookup-insert_self op_id (record p { ack_count = p.ack_count + 1 }) l.operations) two
            (omega arith))
  ]
]

-- The effects of `k` acks, of an operation that waits for at least one more.
acks_counted :
    (l : Leader) (op_id k : ℕ) (p : PendingOperation)
    → lookup op_id l.operations ≡ some p
    → length l.cluster ≢ 2
    → length l.cluster < 2 ^ 64
    → p.ack_count < needed_acks (length l.cluster)
    → (run_acks l op_id k).1 ≡ (
        if leb (needed_acks (length l.cluster)) (p.ack_count + k)
        then execute op_id p.op ∷ []
        else [])
unfolding run_acks
acks_counted l op_id zero p e two size wait = ground arith
acks_counted l op_id (suc k) p e two size wait =
    let q : PendingOperation = record p { ack_count = p.ack_count + 1 } in
    let stored = lookup-insert_self op_id q l.operations in
    elim (dec_lt (p.ack_count + 1) (needed_acks (length l.cluster))) [
      | yes more ↦
          rw (ack_waits l op_id p e two (omega arith) (omega arith) (omega arith), run_acks)
            (acks_counted (acked l op_id p) op_id k q stored two size more
              ∙ ap
                  (λ n.
                    if leb (needed_acks (length l.cluster)) n then execute op_id p.op ∷ [] else [])
                  (omega arith))
      | no last ↦
          rw (ack_executes l op_id p e (omega arith) (omega arith), run_acks)
            (ap (◌++◌ (execute op_id p.op ∷ []))
                (late_acks_ignored (acked l op_id p) op_id k q stored two (omega arith))
              ∙ ground arith)
    ]

-- In a cluster of three or more members, which does not change meanwhile, the acks of an operation
-- execute it once, at the last one that is needed, neither before nor again.
pub acks_execute_once :
    (l : Leader) (op_id k : ℕ) (p : PendingOperation)
    → lookup op_id l.operations ≡ some p
    → p.ack_count ≡ 0
    → 3 ≤ length l.cluster
    → length l.cluster < 2 ^ 64
    → (run_acks l op_id k).1
      ≡ (if leb (needed_acks (length l.cluster)) k then execute op_id p.op ∷ [] else [])
acks_execute_once l op_id k p e new_ three size =
    acks_counted l op_id k p e (omega arith) size (omega arith)
    ∙ ap (λ n. if leb (needed_acks (length l.cluster)) n then execute op_id p.op ∷ [] else [])
        (omega arith)
