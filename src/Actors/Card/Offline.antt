-- ===== src/Actors/Card/Offline.antt =====
-- The charges of offline stations on a card: server/src/node/actors/card.rs.
use ypf_fleet_fuel_distribut.Prelude.{
  ℕ, ◌≡◌, refl, sym, ◌∙◌, inl, inr, Bool, true, false, ◌&&◌, ◌==◌, Option, none, some, List, [],
  ◌∷◌, arith, All, All-append, Option-cases,
}
use ypf_fleet_fuel_distribut.Float.{fadd}
use ypf_fleet_fuel_distribut.Domain.{VerifyError, charge_limit, card_limit_exceeded}
use ypf_fleet_fuel_distribut.Actors.Messages.{
  CardMsg, AccountChargeReply, Effect, to_router, operation_completed, execute_charge,
  execute_limit_change, query_card_state,
}
use ypf_fleet_fuel_distribut.Actors.Card.Inputs.{CardInput, msg, reply, handle_input, run_card}
use ypf_fleet_fuel_distribut.Actors.Card.{
  CardActor, CardTask, CardChargeOp, charge, limit_change, handle_card, handle_charge_reply,
  next_task, start_task, start_current_task, finish_current_task, enqueue, charge_replied,
}

abbrev pub is_card_refusal : Option VerifyError → Bool
is_card_refusal (some (charge_limit card_limit_exceeded)) = true
is_card_refusal _ = false

-- The operation is reported as refused by the card's limit.
abbrev pub refuses : ℕ → Effect → Bool
refuses id (to_router (operation_completed op_id _ error)) = op_id == id && is_card_refusal error
refuses id _ = false

abbrev pub NotRefused : ℕ → List Effect → Type 0
NotRefused id es = All (λ e. refuses id e ≡ false) es

-- A charge under this id comes from an offline station.
abbrev IsOffline : ℕ → CardTask → Type 0
IsOffline id (charge op) = (op.op_id == id) ≡ true → op.from_offline_station ≡ true
IsOffline id (limit_change _ _) = Unit

abbrev IsOfflineNow : ℕ → Option CardTask → Type 0
IsOfflineNow id none = Unit
IsOfflineNow id (some t) = IsOffline id t

pub record HoldsOffline (id : ℕ) (c : CardActor) : Type 0 where
  pub now : IsOfflineNow id c.current_task
  pub waiting : All (IsOffline id) c.queue

-- From a card with the key of `c₀`.
abbrev Spares : ℕ → CardActor → CardActor × List Effect → Type 0
Spares id c₀ (c, es) =
    NotRefused id es × HoldsOffline id c × (c.account_id ≡ c₀.account_id) × (c.card_id ≡ c₀.card_id)

start_task-Spares :
    (id : ℕ) (t : CardTask) (ts : List CardTask) (c : CardActor)
    → c.current_task ≡ some t
    → c.queue ≡ ts
    → IsOffline id t
    → All (IsOffline id) ts
    → ((c' : CardActor) → Spares id c' (next_task ts c'))
    → Spares id c (start_task t (next_task ts) c)
unfolding start_task
start_task-Spares id (charge op) ts c e q off all next = ground (arith, next c)
start_task-Spares id (limit_change op_id l) ts c e q off all next =
    ground (arith, next c, next (record c { limit = l }))

next_task-Spares :
    (id : ℕ) (ts : List CardTask) (c : CardActor)
    → All (IsOffline id) ts
    → Spares id c (next_task ts c)
unfolding next_task
next_task-Spares id [] c all = (tt, record { now = tt; waiting = tt }, refl, refl)
next_task-Spares id (t ∷ ts) c all =
    start_task-Spares id t ts (record c { current_task = some t; queue = ts }) refl refl all.0 all.1
      (λ c'. next_task-Spares id ts c' all.1)

enqueue-Spares :
    (id : ℕ) (c : CardActor) (t : CardTask)
    → IsOffline id t
    → HoldsOffline id c
    → Spares id c (enqueue c t)
unfolding enqueue start_current_task
enqueue-Spares id c t off h = elim (Option-cases c.current_task) [
  | inl e ↦
      let started : CardActor = record c { current_task = some t } in
      ground (
        arith,
        start_task-Spares id t c.queue started refl refl off h.waiting
            (λ c'. next_task-Spares id c.queue c' h.waiting),
      )
  | inr (u, e) ↦
      ground (arith, h.now, All-append (IsOffline id) c.queue (t ∷ []) h.waiting (off, tt))
]

-- A charge is for this card, and under this id only one of an offline station.
abbrev IsSpared : ℕ → CardActor → CardMsg → Type 0
IsSpared id c (execute_charge op_id account_id card_id _ from_offline_station) =
    (account_id ≡ c.account_id)
    × (card_id ≡ c.card_id)
    × ((op_id == id) ≡ true → from_offline_station ≡ true)
IsSpared id c _ = Unit

handle_card-Spares :
    (id : ℕ) (c : CardActor) (m : CardMsg)
    → IsSpared id c m
    → HoldsOffline id c
    → Spares id c (handle_card c m)
unfolding handle_card
handle_card-Spares id c (execute_charge op_id a k x offline) s h =
    let op : CardChargeOp = record {
      op_id = op_id;
      account_id = a;
      amount = x;
      from_offline_station = offline;
    } in
    ground (arith, s.0, s.1, enqueue-Spares id c (charge op) s.2 h)
handle_card-Spares id c (execute_limit_change op_id l) s h =
    enqueue-Spares id c (limit_change op_id l) tt h
handle_card-Spares id c (query_card_state op_id a reset) s h = ground (arith, h.now, h.waiting)
handle_card-Spares id c (CardMsg.get_snapshot op_id) s h = ((refl, tt), h, refl, refl)
handle_card-Spares id c (CardMsg.replace_state l x) s h =
    (tt, record { now = tt; waiting = tt }, refl, refl)
handle_card-Spares id c CardMsg.debug s h = ((refl, tt), h, refl, refl)

-- The account does not refuse the operation for the card.
abbrev IsFromAccount : ℕ → AccountChargeReply → Type 0
IsFromAccount id r = (r.op_id == id && is_card_refusal r.error) ≡ false

charge_replied-Spares :
    (id : ℕ) (c : CardActor) (t : CardTask) (r : AccountChargeReply)
    → IsFromAccount id r
    → HoldsOffline id c
    → Spares id c (charge_replied c t r)
unfolding charge_replied finish_current_task
charge_replied-Spares id c (charge op) r from h =
    let charged : CardActor = record c { consumed = fadd c.consumed op.amount } in
    ground (
      arith,
      from,
      h,
      next_task-Spares id c.queue charged h.waiting,
      next_task-Spares id c.queue c h.waiting,
    )
charge_replied-Spares id c (limit_change op_id l) r from h = ((refl, tt), h, refl, refl)

handle_charge_reply-Spares :
    (id : ℕ) (c : CardActor) (r : AccountChargeReply)
    → IsFromAccount id r
    → HoldsOffline id c
    → Spares id c (handle_charge_reply c r)
unfolding handle_charge_reply
handle_charge_reply-Spares id c r from h = elim (Option-cases c.current_task) [
  | inl e ↦ rw (e, handle_charge_reply) ((refl, tt), h, refl, refl)
  | inr (t, e) ↦ rw (e, handle_charge_reply) (charge_replied-Spares id c t r from h)
]

abbrev IsSparedInput : ℕ → CardActor → CardInput → Type 0
IsSparedInput id c (msg m) = IsSpared id c m
IsSparedInput id c (reply r) = IsFromAccount id r

abbrev pub AllSpared : ℕ → CardActor → List CardInput → Type 0
AllSpared id c is = All (IsSparedInput id c) is

handle_input-Spares :
    (id : ℕ) (c : CardActor) (i : CardInput)
    → IsSparedInput id c i
    → HoldsOffline id c
    → Spares id c (handle_input c i)
unfolding handle_input
handle_input-Spares id c (msg m) s h = handle_card-Spares id c m s h
handle_input-Spares id c (reply r) s h = handle_charge_reply-Spares id c r s h

IsSparedInput-key :
    (id : ℕ) (c c' : CardActor) (i : CardInput)
    → c'.account_id ≡ c.account_id
    → c'.card_id ≡ c.card_id
    → IsSparedInput id c i
    → IsSparedInput id c' i
IsSparedInput-key id c c' (msg (execute_charge op_id a k x offline)) e f s =
    (s.0 ∙ sym e, s.1 ∙ sym f, s.2)
IsSparedInput-key id c c' (msg (execute_limit_change op_id l)) e f s = tt
IsSparedInput-key id c c' (msg (query_card_state op_id a reset)) e f s = tt
IsSparedInput-key id c c' (msg (CardMsg.get_snapshot op_id)) e f s = tt
IsSparedInput-key id c c' (msg (CardMsg.replace_state l x)) e f s = tt
IsSparedInput-key id c c' (msg CardMsg.debug) e f s = tt
IsSparedInput-key id c c' (reply r) e f s = s

AllSpared-key :
    (id : ℕ) (c c' : CardActor) (is : List CardInput)
    → c'.account_id ≡ c.account_id
    → c'.card_id ≡ c.card_id
    → AllSpared id c is
    → AllSpared id c' is
AllSpared-key id c c' [] e f s = tt
AllSpared-key id c c' (i ∷ is) e f s =
    (IsSparedInput-key id c c' i e f s.0, AllSpared-key id c c' is e f s.1)

-- What an offline station has already granted is never refused by the card, whatever its limit: in any
-- history of a card, idle or busy, no effect reports an operation as refused by the card's limit, if
-- every charge under its id that the card holds or is sent comes from an offline station. All
-- charges are for this card, and no reply of the account refuses the operation with the card's error.
pub offline_charge_passes :
    (id : ℕ) (c : CardActor) (is : List CardInput)
    → HoldsOffline id c
    → AllSpared id c is
    → NotRefused id (run_card c is).1
unfolding run_card
offline_charge_passes id c [] h s = tt
offline_charge_passes id c (i ∷ is) h s =
    let (now, h', account, card) = handle_input-Spares id c i s.0 h in
    let c' = (handle_input c i).0 in
    All-append (λ e. refuses id e ≡ false) (handle_input c i).1 (run_card c' is).1 now
      (offline_charge_passes id c' is h' (AllSpared-key id c c' is account card s.1))
