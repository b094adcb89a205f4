-- ===== src/Actors/System/Panics.antt =====
-- The panics of the router, over all runs of the actors: server/src/node/actors/.
use ypf_fleet_fuel_distribut.Prelude.{
  ◌≡◌, inl, inr, Option, none, some, List, [], ◌∷◌, ◌++◌, arith, All, All-append, Option-cases,
}
use mathlib.Core.Path.{subst}
use ypf_fleet_fuel_distribut.Actors.Messages.{
  Effect, to_router, to_account, to_card, reply_to_card, to_node, start_account, start_card,
}
use ypf_fleet_fuel_distribut.Actors.Explained.{IsExplained}
use ypf_fleet_fuel_distribut.Actors.Account.{handle_account}
use ypf_fleet_fuel_distribut.Actors.Card.{handle_card, handle_charge_reply}
use ypf_fleet_fuel_distribut.Actors.Account.Reasons.{handle_account-IsExplained}
use ypf_fleet_fuel_distribut.Actors.Card.Reasons.{
  handle_card-IsExplained, handle_charge_reply-IsExplained,
}
use ypf_fleet_fuel_distribut.Actors.Router.{handle_internal, handle_cmd}
use ypf_fleet_fuel_distribut.Actors.Router.Reasons.{
  IsHandled, handle_cmd-IsExplained, handle_internal-IsHandled,
}
use ypf_fleet_fuel_distribut.Actors.System.{
  System, new_system, send, receive, submit, Step, command, read_event, deliver, Reachable, start,
  next,
}

abbrev pub AllExplained : System → Type 0
AllExplained s = All IsExplained s.in_flight

send-AllExplained :
    (s : System) (es : List Effect) → AllExplained s → All IsExplained es → AllExplained (send s es)
unfolding send
send-AllExplained s [] h g = h
send-AllExplained s (start_account k ∷ es) h g = send-AllExplained _ es h g.1
send-AllExplained s (start_card key ∷ es) h g = send-AllExplained _ es h g.1
send-AllExplained s (to_node ev ∷ es) h g = send-AllExplained _ es h g.1
send-AllExplained s (e ∷ es) h g =
    send-AllExplained (record s { in_flight = s.in_flight ++ e ∷ [] }) es
      (All-append IsExplained s.in_flight (e ∷ []) h (g.0, tt)) g.1

-- The message was handled, and all that is under way is explained.
abbrev IsReceived : Option System → Type 0
IsReceived none = ⊥
IsReceived (some t) = AllExplained t

receive-IsReceived :
    (s : System) (e : Effect) → AllExplained s → IsExplained e → IsReceived (receive s e)
unfolding receive
receive-IsReceived s (to_router m) h g =
    let handled = handle_internal-IsHandled s.router m g in
    elim (Option-cases (handle_internal s.router m)) [
      | inl e ↦ absurd (subst IsHandled e handled)
      | inr (x, e) ↦
          rw (e, receive)
            (send-AllExplained (record s { router = x.0 }) x.1 h (subst IsHandled e handled))
    ]
receive-IsReceived s (to_account k m) h g = elim (Option-cases (s.accounts k)) [
  | inl e ↦ ground arith
  | inr (a, e) ↦
      rw (e, receive)
        (send-AllExplained _ (handle_account a m).1 h (handle_account-IsExplained a m))
]
receive-IsReceived s (to_card key m) h g = elim (Option-cases (s.cards key)) [
  | inl e ↦ ground arith
  | inr (c, e) ↦
      rw (e, receive) (send-AllExplained _ (handle_card c m).1 h (handle_card-IsExplained c m))
]
receive-IsReceived s (reply_to_card key r) h g = elim (Option-cases (s.cards key)) [
  | inl e ↦ ground arith
  | inr (c, e) ↦
      rw (e, receive)
        (send-AllExplained _ (handle_charge_reply c r).1 h (handle_charge_reply-IsExplained c r g))
]
receive-IsReceived s (to_node e) h g = h
receive-IsReceived s (start_account k) h g = h
receive-IsReceived s (start_card key) h g = h

All-split_left {ℓ κ} : {A : Type ℓ} (P : A → Type κ) (xs ys : List A) → All P (xs ++ ys) → All P xs
All-split_left P [] ys h = tt
All-split_left P (x ∷ xs) ys h = (h.0, All-split_left P xs ys h.1)

All-split_right {ℓ κ} : {A : Type ℓ} (P : A → Type κ) (xs ys : List A) → All P (xs ++ ys) → All P ys
All-split_right P [] ys h = h
All-split_right P (x ∷ xs) ys h = All-split_right P xs ys h.1

delivered-IsReceived :
    (s : System) (before after : List Effect) (e : Effect)
    → s.in_flight ≡ before ++ e ∷ after
    → AllExplained s
    → IsReceived (receive (record s { in_flight = before ++ after }) e)
delivered-IsReceived s before after e split h =
    let all : All IsExplained (before ++ e ∷ after) = subst (All IsExplained) split h in
    let rest = All-split_right IsExplained before (e ∷ after) all in
    receive-IsReceived (record s { in_flight = before ++ after }) e
      (All-append IsExplained before after (All-split_left IsExplained before (e ∷ after) all)
        rest.1)
      rest.0

Step-AllExplained : {s t : System} → Step s t → AllExplained s → AllExplained t
unfolding submit
Step-AllExplained (command s cmd) h =
    send-AllExplained _ (handle_cmd s.router cmd).1 h (handle_cmd-IsExplained s.router cmd)
Step-AllExplained (read_event s ev events e) h = h
Step-AllExplained (deliver s t before after e split received) h =
    subst IsReceived received (delivered-IsReceived s before after e split h)

Reachable-AllExplained : {s : System} → Reachable s → AllExplained s
unfolding new_system
Reachable-AllExplained start = tt
Reachable-AllExplained (next r st) = Step-AllExplained st (Reachable-AllExplained r)

-- No message that is under way, in any state that the actors of a node can come to, makes its receiver
-- panic: whichever is delivered next, it is handled.
pub delivery_never_panics :
    (s : System) (before after : List Effect) (e : Effect)
    → Reachable s
    → s.in_flight ≡ before ++ e ∷ after
    → (t : System) × (receive (record s { in_flight = before ++ after }) e ≡ some t)
delivery_never_panics s before after e r split =
    let received = delivered-IsReceived s before after e split (Reachable-AllExplained r) in
    elim (Option-cases (receive (record s { in_flight = before ++ after }) e)) [
      | inl none_ ↦ absurd (subst IsReceived none_ received)
      | inr t ↦ t
    ]
