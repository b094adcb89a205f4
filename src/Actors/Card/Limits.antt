-- ===== src/Actors/Card/Limits.antt =====
-- The limit of a card: server/src/node/actors/card.rs.
use ypf_fleet_fuel_distribut.Prelude.{
  ◌≡◌, refl, inl, inr, false, Option, none, some, List, [], ◌∷◌, arith, All, All-append,
  Option-cases,
}
use ypf_fleet_fuel_distribut.Float.{fadd}
use ypf_fleet_fuel_distribut.Float.Order.{Within, fge→not_fgt}
use ypf_fleet_fuel_distribut.Actors.Messages.{
  CardMsg, AccountChargeReply, execute_charge, execute_limit_change, query_card_state,
}
use ypf_fleet_fuel_distribut.Actors.Card.Inputs.{CardInput, msg, reply, handle_input, run_card}
use ypf_fleet_fuel_distribut.Actors.Card.{
  CardActor, CardTask, CardChargeOp, charge, limit_change, handle_card, handle_charge_reply,
  next_task, start_task, start_current_task, finish_current_task, enqueue, charge_replied,
}

abbrev pub IsOnline : CardTask → Type 0
IsOnline (charge op) = op.from_offline_station ≡ false
IsOnline (limit_change _ _) = Unit

-- The task under way: a charge that the account is asked about would not exceed the limit.
abbrev Admitted : CardActor → Option CardTask → Type 0
Admitted c none = Unit
Admitted c (some (charge op)) =
    (op.from_offline_station ≡ false) × Within c.limit (fadd c.consumed op.amount)
Admitted c (some (limit_change _ _)) = Unit

-- The consumption is within the limit and stays so whatever the account answers; no charge comes
-- from an offline station.
pub record IsWithinLimit (c : CardActor) : Type 0 where
  pub within : Within c.limit c.consumed
  pub admitted : Admitted c c.current_task
  pub online : All IsOnline c.queue

start_task-IsWithinLimit :
    (t : CardTask) (ts : List CardTask) (c : CardActor)
    → c.current_task ≡ some t
    → c.queue ≡ ts
    → IsOnline t
    → All IsOnline ts
    → Within c.limit c.consumed
    → ((c' : CardActor) → Within c'.limit c'.consumed → IsWithinLimit (next_task ts c').0)
    → IsWithinLimit (start_task t (next_task ts) c).0
unfolding start_task
start_task-IsWithinLimit (charge op) ts c e q on all w next = elim (Option-cases c.limit) [
  | inl l ↦ ground (arith, next c)
  | inr (limit, l) ↦ ground (arith, next c)
]
start_task-IsWithinLimit (limit_change op_id none) ts c e q on all w next =
    ground (arith, next c, next (record c { limit = none }))
start_task-IsWithinLimit (limit_change op_id (some lim)) ts c e q on all w next =
    ground (arith, next c, next (record c { limit = some lim }), fge→not_fgt lim c.consumed)

next_task-IsWithinLimit :
    (ts : List CardTask) (c : CardActor)
    → All IsOnline ts
    → Within c.limit c.consumed
    → IsWithinLimit (next_task ts c).0
unfolding next_task
next_task-IsWithinLimit [] c all w = record { within = w; admitted = tt; online = tt }
next_task-IsWithinLimit (t ∷ ts) c all w =
    start_task-IsWithinLimit t ts (record c { current_task = some t; queue = ts }) refl refl all.0
      all.1 w (λ c' w'. next_task-IsWithinLimit ts c' all.1 w')

enqueue-IsWithinLimit :
    (c : CardActor) (t : CardTask) → IsOnline t → IsWithinLimit c → IsWithinLimit (enqueue c t).0
unfolding enqueue start_current_task
enqueue-IsWithinLimit c t on v = elim (Option-cases c.current_task) [
  | inl e ↦
      let started : CardActor = record c { current_task = some t } in
      ground (
        arith,
        start_task-IsWithinLimit t c.queue started refl refl on v.online v.within
            (λ c' w. next_task-IsWithinLimit c.queue c' v.online w),
      )
  | inr (u, e) ↦
      ground (arith, v.within, v.admitted, All-append IsOnline c.queue (t ∷ []) v.online (on, tt))
]

-- A message that no limit is exempt from: the charge is not one of an offline station, the card is
-- not billed, and a snapshot that replaces the state is within its own limit.
abbrev pub IsLimited : CardMsg → Type 0
IsLimited (execute_charge _ _ _ _ from_offline_station) = from_offline_station ≡ false
IsLimited (query_card_state _ _ reset_after_report) = reset_after_report ≡ false
IsLimited (CardMsg.replace_state new_limit new_consumed) = Within new_limit new_consumed
IsLimited _ = Unit

pub handle_card-IsWithinLimit :
    (c : CardActor) (m : CardMsg)
    → IsLimited m
    → IsWithinLimit c
    → IsWithinLimit (handle_card c m).0
unfolding handle_card
handle_card-IsWithinLimit c (execute_charge op_id a k x offline) l v =
    let op : CardChargeOp = record {
      op_id = op_id;
      account_id = a;
      amount = x;
      from_offline_station = offline;
    } in
    ground (arith, enqueue-IsWithinLimit c (charge op) l v)
handle_card-IsWithinLimit c (execute_limit_change op_id new_limit) l v =
    enqueue-IsWithinLimit c (limit_change op_id new_limit) tt v
handle_card-IsWithinLimit c (query_card_state op_id a reset) l v = ground arith
handle_card-IsWithinLimit c (CardMsg.get_snapshot op_id) l v = v
handle_card-IsWithinLimit c (CardMsg.replace_state new_limit x) l v = record {
  within = l;
  admitted = tt;
  online = tt;
}
handle_card-IsWithinLimit c CardMsg.debug l v = v

charge_replied-IsWithinLimit :
    (c : CardActor) (t : CardTask) (r : AccountChargeReply)
    → c.current_task ≡ some t
    → IsWithinLimit c
    → IsWithinLimit (charge_replied c t r).0
unfolding charge_replied finish_current_task
charge_replied-IsWithinLimit c (charge op) r e v =
    let charged : CardActor = record c { consumed = fadd c.consumed op.amount } in
    ground (
      arith,
      v.admitted,
      next_task-IsWithinLimit c.queue charged v.online,
      next_task-IsWithinLimit c.queue c v.online v.within,
    )
charge_replied-IsWithinLimit c (limit_change op_id l) r e v = v

pub handle_charge_reply-IsWithinLimit :
    (c : CardActor) (r : AccountChargeReply)
    → IsWithinLimit c
    → IsWithinLimit (handle_charge_reply c r).0
unfolding handle_charge_reply
handle_charge_reply-IsWithinLimit c r v = elim (Option-cases c.current_task) [
  | inl e ↦ rw (e, handle_charge_reply) v
  | inr (t, e) ↦ rw (e, handle_charge_reply) (charge_replied-IsWithinLimit c t r e v)
]

abbrev pub AllLimited : List CardInput → Type 0
AllLimited [] = Unit
AllLimited (msg m ∷ is) = IsLimited m × AllLimited is
AllLimited (reply r ∷ is) = AllLimited is

-- No history takes the consumption of a card over its limit, nor admits a charge that would: neither
-- limit changes, queued charges nor the replies of the account, in any order. The history has no
-- charge of an offline station and no billing, and the snapshots that it loads are within their own
-- limits.
pub run_card-IsWithinLimit :
    (c : CardActor) (is : List CardInput)
    → AllLimited is
    → IsWithinLimit c
    → IsWithinLimit (run_card c is).0
unfolding run_card handle_input
run_card-IsWithinLimit c [] l v = v
run_card-IsWithinLimit c (msg m ∷ is) l v =
    run_card-IsWithinLimit (handle_card c m).0 is l.1 (handle_card-IsWithinLimit c m l.0 v)
run_card-IsWithinLimit c (reply r ∷ is) l v =
    run_card-IsWithinLimit (handle_charge_reply c r).0 is l
      (handle_charge_reply-IsWithinLimit c r v)
