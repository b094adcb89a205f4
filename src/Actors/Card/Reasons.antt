-- ===== src/Actors/Card/Reasons.antt =====
-- The reasons that a card gives: server/src/node/actors/card.rs.
use ypf_fleet_fuel_distribut.Actors.Explained.{HasReason, IsExplained}
use ypf_fleet_fuel_distribut.Float.{fadd}
use ypf_fleet_fuel_distribut.Prelude.{inl, inr, some, List, [], ◌∷◌, arith, All, Option-cases}
use ypf_fleet_fuel_distribut.Actors.Messages.{
  CardMsg, AccountChargeReply, execute_charge, execute_limit_change,
}
use ypf_fleet_fuel_distribut.Actors.Card.{
  CardActor, CardTask, CardChargeOp, charge, limit_change, handle_card, handle_charge_reply,
  start_task, next_task, enqueue, start_current_task, finish_current_task, charge_replied,
}

start_task-IsExplained :
    (t : CardTask) (ts : List CardTask) (c : CardActor)
    → ((c' : CardActor) → All IsExplained (next_task ts c').1)
    → All IsExplained (start_task t (next_task ts) c).1
unfolding start_task
start_task-IsExplained (charge op) ts c next_ = ground (arith, next_ c)
start_task-IsExplained (limit_change op_id l) ts c next_ =
    ground (arith, next_ c, next_ (record c { limit = l }))

next_task-IsExplained : (ts : List CardTask) (c : CardActor) → All IsExplained (next_task ts c).1
unfolding next_task
next_task-IsExplained [] c = tt
next_task-IsExplained (t ∷ ts) c =
    start_task-IsExplained t ts (record c { current_task = some t; queue = ts })
      (next_task-IsExplained ts)

enqueue-IsExplained : (c : CardActor) (t : CardTask) → All IsExplained (enqueue c t).1
unfolding enqueue start_current_task
enqueue-IsExplained c t = ground (
  arith,
  start_task-IsExplained t c.queue (record c { current_task = some t })
      (next_task-IsExplained c.queue),
)

pub handle_card-IsExplained : (c : CardActor) (m : CardMsg) → All IsExplained (handle_card c m).1
unfolding handle_card
handle_card-IsExplained c (execute_charge op_id a k x offline) =
    let op : CardChargeOp = record {
      op_id = op_id;
      account_id = a;
      amount = x;
      from_offline_station = offline;
    } in
    ground (arith, enqueue-IsExplained c (charge op))
handle_card-IsExplained c (execute_limit_change op_id l) =
    enqueue-IsExplained c (limit_change op_id l)
handle_card-IsExplained c m = ground arith

charge_replied-IsExplained :
    (c : CardActor) (t : CardTask) (r : AccountChargeReply)
    → HasReason r.success r.error
    → All IsExplained (charge_replied c t r).1
unfolding charge_replied finish_current_task
charge_replied-IsExplained c (charge op) r h =
    let charged : CardActor = record c { consumed = fadd c.consumed op.amount } in
    ground (arith, next_task-IsExplained c.queue charged, next_task-IsExplained c.queue c)
charge_replied-IsExplained c (limit_change op_id l) r h = (tt, tt)

pub handle_charge_reply-IsExplained :
    (c : CardActor) (r : AccountChargeReply)
    → HasReason r.success r.error
    → All IsExplained (handle_charge_reply c r).1
unfolding handle_charge_reply
handle_charge_reply-IsExplained c r h = elim (Option-cases c.current_task) [
  | inl e ↦ ground arith
  | inr (t, e) ↦ ground (arith, charge_replied-IsExplained c t r h)
]
