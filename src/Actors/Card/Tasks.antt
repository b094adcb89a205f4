-- ===== src/Actors/Card/Tasks.antt =====
-- The tasks that a card holds and answers: server/src/node/actors/card.rs.
use ypf_fleet_fuel_distribut.Prelude.{
  ℕ, ◌≡◌, refl, ap, inl, inr, Option, none, some, List, [], ◌∷◌, ◌++◌, append-nil, arith,
  Option-cases,
}
use ypf_fleet_fuel_distribut.Float.{fadd}
use ypf_fleet_fuel_distribut.Actors.Messages.{
  CardMsg, AccountChargeReply, Effect, to_router, operation_completed, execute_charge,
  execute_limit_change, query_card_state,
}
use ypf_fleet_fuel_distribut.Actors.Card.{
  CardActor, CardTask, CardChargeOp, charge, limit_change, handle_card, handle_charge_reply,
  next_task, start_task, start_current_task, finish_current_task, enqueue, charge_replied,
}

abbrev pub task_id : CardTask → ℕ
task_id (charge op) = op.op_id
task_id (limit_change op_id _) = op_id

abbrev pub task_ids : List CardTask → List ℕ
task_ids [] = []
task_ids (t ∷ ts) = task_id t ∷ task_ids ts

-- The operations that the card holds, oldest first.
abbrev pub held_by : Option CardTask → List CardTask → List ℕ
held_by none ts = task_ids ts
held_by (some t) ts = task_id t ∷ task_ids ts

abbrev pub held : CardActor → List ℕ
held c = held_by c.current_task c.queue

-- The operations that the effects report as completed, in order.
abbrev pub completed_by : Effect → List ℕ
completed_by (to_router (operation_completed op_id _ _)) = op_id ∷ []
completed_by _ = []

abbrev pub completed : List Effect → List ℕ
completed [] = []
completed (e ∷ es) = completed_by e ++ completed es

-- Nothing waits behind an idle card.
abbrev IsOrderlyFor : Option CardTask → List CardTask → Type 0
IsOrderlyFor none ts = ts ≡ []
IsOrderlyFor (some t) ts = Unit

abbrev pub IsOrderly : CardActor → Type 0
IsOrderly c = IsOrderlyFor c.current_task c.queue

-- From a card with the key of `c₀`: what it answers and what it then holds is what it had to do.
abbrev pub Accounts : CardActor → List ℕ → CardActor × List Effect → Type 0
Accounts c₀ ids (c, es) =
    (completed es ++ held c ≡ ids)
    × IsOrderly c
    × (c.account_id ≡ c₀.account_id)
    × (c.card_id ≡ c₀.card_id)

-- The task `t` is the current one, and `ts` wait behind it.
start_task-Accounts :
    (t : CardTask) (ts : List CardTask) (c : CardActor)
    → c.current_task ≡ some t
    → c.queue ≡ ts
    → ((c' : CardActor) → Accounts c' (task_ids ts) (next_task ts c'))
    → Accounts c (task_id t ∷ task_ids ts) (start_task t (next_task ts) c)
unfolding start_task
start_task-Accounts (charge op) ts c e q next = ground (arith, next c)
start_task-Accounts (limit_change op_id l) ts c e q next =
    ground (arith, next c, next (record c { limit = l }))

next_task-Accounts :
    (ts : List CardTask) (c : CardActor) → Accounts c (task_ids ts) (next_task ts c)
unfolding next_task
next_task-Accounts [] c = (refl, refl, refl, refl)
next_task-Accounts (t ∷ ts) c =
    start_task-Accounts t ts (record c { current_task = some t; queue = ts }) refl refl
      (next_task-Accounts ts)

task_ids-append : (ts us : List CardTask) → task_ids (ts ++ us) ≡ task_ids ts ++ task_ids us
task_ids-append [] us = refl
task_ids-append (t ∷ ts) us = ap (◌∷◌ (task_id t)) (task_ids-append ts us)

enqueue-Accounts :
    (c : CardActor) (t : CardTask)
    → IsOrderly c
    → Accounts c (held c ++ task_id t ∷ []) (enqueue c t)
unfolding enqueue start_current_task
enqueue-Accounts c t h = elim (Option-cases c.current_task) [
  | inl e ↦
      let started : CardActor = record c { current_task = some t } in
      ground (arith, start_task-Accounts t c.queue started refl refl (next_task-Accounts c.queue))
  | inr (u, e) ↦ ground (arith, task_ids-append c.queue (t ∷ []))
]

-- The operation that a message brings to the card, if it is addressed to it.
abbrev pub arriving : CardMsg → List ℕ
arriving (execute_charge op_id _ _ _ _) = op_id ∷ []
arriving (execute_limit_change op_id _) = op_id ∷ []
arriving _ = []

-- A charge is for this card, and no snapshot replaces the card's state.
abbrev pub IsRouted : CardActor → CardMsg → Type 0
IsRouted c (execute_charge _ account_id card_id _ _) =
    (account_id ≡ c.account_id) × (card_id ≡ c.card_id)
IsRouted c (CardMsg.replace_state _ _) = ⊥
IsRouted c _ = Unit

pub handle_card-Accounts :
    (c : CardActor) (m : CardMsg)
    → IsOrderly c
    → IsRouted c m
    → Accounts c (held c ++ arriving m) (handle_card c m)
unfolding handle_card
handle_card-Accounts c (execute_charge op_id a k x offline) h r =
    let op : CardChargeOp = record {
      op_id = op_id;
      account_id = a;
      amount = x;
      from_offline_station = offline;
    } in
    ground (arith, enqueue-Accounts c (charge op) h)
handle_card-Accounts c (execute_limit_change op_id l) h r =
    enqueue-Accounts c (limit_change op_id l) h
handle_card-Accounts c (query_card_state op_id a reset) h r = ground (arith, append-nil (held c))
handle_card-Accounts c (CardMsg.get_snapshot op_id) h r = ground (arith, append-nil (held c))
handle_card-Accounts c (CardMsg.replace_state l x) h r = absurd r
handle_card-Accounts c CardMsg.debug h r = ground (arith, append-nil (held c))

charge_replied-Accounts :
    (c : CardActor) (t : CardTask) (r : AccountChargeReply)
    → c.current_task ≡ some t
    → Accounts c (held c) (charge_replied c t r)
unfolding charge_replied finish_current_task
charge_replied-Accounts c (charge op) r e =
    let charged : CardActor = record c { consumed = fadd c.consumed op.amount } in
    ground (arith, next_task-Accounts c.queue charged, next_task-Accounts c.queue c)
charge_replied-Accounts c (limit_change op_id l) r e = ground arith

pub handle_charge_reply-Accounts :
    (c : CardActor) (r : AccountChargeReply)
    → IsOrderly c
    → Accounts c (held c) (handle_charge_reply c r)
unfolding handle_charge_reply
handle_charge_reply-Accounts c r h = elim (Option-cases c.current_task) [
  | inl e ↦ ground arith
  | inr (t, e) ↦ ground (arith, charge_replied-Accounts c t r e)
]
