-- ===== src/Actors/Card.antt =====
-- server/src/node/actors/card.rs
pub mod Inputs
pub mod Tasks
pub mod Fifo
pub mod Limits
pub mod Offline
pub mod Reasons
mod Tests
use ypf_fleet_fuel_distribut.Prelude.{
  ℕ, Bool, true, false, ◌&&◌, Option, none, some, List, [], ◌∷◌, ◌++◌, ◌==◌, if◌then◌else◌,
}
use ypf_fleet_fuel_distribut.Float.{F32, fadd, fgt, fge, pos_zero}
use ypf_fleet_fuel_distribut.Domain.{
  VerifyError, LimitCheckError, LimitUpdateError, charge_limit, limit_update, card_limit_exceeded,
  below_current_usage,
}
use ypf_fleet_fuel_distribut.Actors.Messages.{
  CardKey, CardMsg, AccountChargeReply, RouterInternalMsg, Effect, to_router, to_account,
  execute_charge, execute_limit_change, query_card_state, apply_charge_from_card, card_query_reply,
  operation_completed, card_snapshot_collected,
}

pub record CardChargeOp : Type 0 where
  pub op_id : ℕ
  pub account_id : ℕ
  pub amount : F32
  pub from_offline_station : Bool

pub data CardTask : Type 0 where
  charge : CardChargeOp → CardTask
  limit_change : (op_id : ℕ) (new_limit : Option F32) → CardTask

pub record CardActor : Type 0 where
  pub card_id : ℕ
  pub account_id : ℕ
  pub limit : Option F32
  pub consumed : F32
  pub current_task : Option CardTask
  pub queue : List CardTask

-- `CardActor::new`
unfoldable pub new_card : ℕ → ℕ → CardActor
new_card card_id account_id = record {
  card_id = card_id;
  account_id = account_id;
  limit = none;
  consumed = pos_zero;
  current_task = none;
  queue = [];
}

-- `none` is `Ok(())`.
unfoldable pub check_charge_limit : CardActor → F32 → Option LimitCheckError
check_charge_limit c amount = elim c.limit [
  | none ↦ none
  | some limit ↦ if fgt (fadd c.consumed amount) limit then some card_limit_exceeded else none
]

unfoldable pub can_set_new_limit : CardActor → Option F32 → Option LimitUpdateError
can_set_new_limit c none = none
can_set_new_limit c (some lim) = if fge lim c.consumed then none else some below_current_usage

abbrev pub card_key : CardActor → CardKey
card_key c = record { account_id = c.account_id; card_id = c.card_id }

-- `OperationCompleted`, and then what the card goes on with.
completing : ℕ → Bool → Option VerifyError → CardActor × List Effect → CardActor × List Effect
completing op_id success error (c, effects) =
    (c, to_router (operation_completed op_id success error) ∷ effects)

-- The request that a charge makes of the account.
ask_account : CardActor → CardChargeOp → CardActor × List Effect
ask_account c op = (
  c,
  to_account c.account_id
        (apply_charge_from_card op.op_id op.amount c.card_id op.from_offline_station (card_key c))
      ∷ [],
)

-- `start_current_task` on the task `t`. `next` is what `finish_current_task` does after it has
-- reported: the two functions call each other, and the queue gets shorter each time.
start_task : CardTask → (CardActor → CardActor × List Effect) → CardActor → CardActor × List Effect
unfolding check_charge_limit can_set_new_limit completing ask_account
start_task (charge op) next c =
    if op.from_offline_station then ask_account c op else elim (check_charge_limit c op.amount) [
      | some e ↦ completing op.op_id false (some (charge_limit e)) (next c)
      | none ↦ ask_account c op
    ]
start_task (limit_change op_id new_limit) next c = elim (can_set_new_limit c new_limit) [
  | none ↦ completing op_id true none (next (record c { limit = new_limit }))
  | some e ↦ completing op_id false (some (limit_update e)) (next c)
]

-- The second half of `finish_current_task`: takes the front of the queue, if any, and starts it.
next_task : List CardTask → CardActor → CardActor × List Effect
unfolding start_task
next_task [] c = (record c { current_task = none; queue = [] }, [])
next_task (t ∷ ts) c = start_task t (next_task ts) (record c { current_task = some t; queue = ts })

unfoldable pub start_current_task : CardActor → CardActor × List Effect
unfolding start_task next_task
start_current_task c = elim c.current_task [
  | none ↦ (c, [])
  | some t ↦ start_task t (next_task c.queue) c
]

unfoldable pub finish_current_task :
    CardActor → ℕ → Bool → Option VerifyError → CardActor × List Effect
unfolding next_task completing
finish_current_task c op_id success error = completing op_id success error (next_task c.queue c)

-- A new task: started if the card is idle, queued if not.
enqueue : CardActor → CardTask → CardActor × List Effect
unfolding start_current_task
enqueue c t = elim c.current_task [
  | none ↦ start_current_task (record c { current_task = some t })
  | some _ ↦ (record c { queue = c.queue ++ t ∷ [] }, [])
]

-- `Handler<CardMsg>::handle`
unfoldable pub handle_card : CardActor → CardMsg → CardActor × List Effect
unfolding enqueue
handle_card c (execute_charge op_id account_id card_id amount from_offline_station) =
    if account_id == c.account_id && card_id == c.card_id
    then enqueue c (
        charge (record {
          op_id = op_id;
          account_id = account_id;
          amount = amount;
          from_offline_station = from_offline_station;
        }))
    else (
      c,
      to_router RouterInternalMsg.debug
          ∷ to_router (operation_completed op_id false (some (charge_limit card_limit_exceeded)))
          ∷ [],
    )
handle_card c (execute_limit_change op_id new_limit) = enqueue c (limit_change op_id new_limit)
handle_card c (query_card_state op_id account_id reset_after_report) =
    if account_id == c.account_id
    then (
      if reset_after_report then record c { consumed = pos_zero } else c,
      to_account c.account_id (card_query_reply op_id c.card_id c.consumed) ∷ [],
    )
    else (c, to_router RouterInternalMsg.debug ∷ [])
handle_card c (CardMsg.get_snapshot op_id) = (
  c,
  to_router (
        card_snapshot_collected op_id (record {
          account_id = c.account_id;
          card_id = c.card_id;
          limit = c.limit;
          consumed = c.consumed;
        }))
      ∷ [],
)
handle_card c (CardMsg.replace_state new_limit new_consumed) =
    (record c { limit = new_limit; consumed = new_consumed; current_task = none; queue = [] }, [])
handle_card c CardMsg.debug = (c, to_router RouterInternalMsg.debug ∷ [])

-- The reply to the charge `op`, or one that nothing waits for.
charge_replied : CardActor → CardTask → AccountChargeReply → CardActor × List Effect
unfolding finish_current_task
charge_replied c (charge op) r =
    if op.op_id == r.op_id
    then finish_current_task
        (if r.success then record c { consumed = fadd c.consumed op.amount } else c) r.op_id
        r.success r.error
    else (c, to_router RouterInternalMsg.debug ∷ [])
charge_replied c (limit_change op_id new_limit) r = (c, to_router RouterInternalMsg.debug ∷ [])

-- `Handler<AccountChargeReply>::handle`
unfoldable pub handle_charge_reply : CardActor → AccountChargeReply → CardActor × List Effect
unfolding charge_replied
handle_charge_reply c r = elim c.current_task [
  | none ↦ (c, to_router RouterInternalMsg.debug ∷ [])
  | some t ↦ charge_replied c t r
]
