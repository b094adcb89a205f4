-- ===== src/Actors/System/Tests.antt =====
-- Runs of the actors of a node: server/src/node/actors/.
use ypf_fleet_fuel_distribut.Prelude.{
  ℕ, zero, suc, ◌≡◌, refl, true, false, Option, none, some, List, [], ◌∷◌,
}
use ypf_fleet_fuel_distribut.Float.{fadd, fge, fgt, minus_one}
use ypf_fleet_fuel_distribut.Domain.{
  Operation, OperationResult, ChargeResult, LimitResult, VerifyError, LimitUpdateError,
  LimitCheckError,
}
use ypf_fleet_fuel_distribut.Actors.Messages.{
  CardKey, ActorEvent, RouterCmd, Effect, to_card, to_router, operation_completed, execute,
  execute_limit_change, operation_result,
}
use ypf_fleet_fuel_distribut.Actors.Account.{new_account, handle_account}
use ypf_fleet_fuel_distribut.Actors.Card.{new_card, handle_card, handle_charge_reply}
use ypf_fleet_fuel_distribut.Actors.Router.{new_router, handle_cmd, handle_internal}
use ypf_fleet_fuel_distribut.Actors.System.{
  System, new_system, send, receive, submit, Reachable, start, next, command, deliver,
}
use ypf_fleet_fuel_distribut.Actors.System.Panics.{delivery_never_panics}

-- A limit of -1.0 for a card that has consumed nothing.
abbrev negative_limit : RouterCmd
negative_limit = execute 1 (Operation.limit_card 7 1 (some minus_one))

abbrev card_one : CardKey
card_one = record { account_id = 7; card_id = 1 }

abbrev asked : Effect
asked = to_card card_one (execute_limit_change 1 (some minus_one))

abbrev refused : Effect
refused = to_router (
    operation_completed 1 false
      (some (VerifyError.limit_update LimitUpdateError.below_current_usage)))

abbrev or_new : Option System → System
or_new none = new_system
or_new (some s) = s

-- The command is routed, and the card has refused it.
abbrev routed : System
routed = submit new_system negative_limit

abbrev answered : System
answered = or_new (receive (record routed { in_flight = [] }) asked)

routed-in_flight : routed.in_flight ≡ asked ∷ []
unfolding new_router new_system submit send handle_cmd
routed-in_flight = refl

asked-handled : receive (record routed { in_flight = [] }) asked ≡ some answered
unfolding new_router new_system submit send handle_cmd receive
asked-handled = refl

answered-in_flight : answered.in_flight ≡ refused ∷ []
unfolding new_router new_system submit send handle_cmd receive handle_card new_card fge
answered-in_flight = refl

answered-Reachable : Reachable answered
answered-Reachable =
    next (next start (command new_system negative_limit))
      (deliver routed answered [] [] asked routed-in_flight asked-handled)

delivery_never_panics_example :
    (t : System) × (receive (record answered { in_flight = [] }) refused ≡ some t)
delivery_never_panics_example =
    delivery_never_panics answered [] [] refused answered-Reachable answered-in_flight

-- Delivers the oldest message, as often as the fuel says.
deliveries : ℕ → System → Option System
deliveries zero s = some s
deliveries (suc fuel) s = elim s.in_flight [
  | [] ↦ some s
  | e ∷ es ↦ elim (receive (record s { in_flight = es }) e) [
    | none ↦ none
    | some t ↦ deliveries fuel t
  ]
]

abbrev events_of : Option System → List ActorEvent
events_of none = []
events_of (some s) = s.events

-- A limit of 60.0 for the account, and two charges of 50.0.
abbrev two_charges : System
two_charges =
    submit
      (submit (submit new_system (execute 1 (Operation.limit_account 7 (some 0x42700000))))
        (execute 2 (Operation.charge 7 1 0x42480000 false)))
      (execute 3 (Operation.charge 7 1 0x42480000 false))

abbrev charge_of_fifty : Operation
charge_of_fifty = Operation.charge 7 1 0x42480000 false

abbrev over_limit : VerifyError
over_limit = VerifyError.charge_limit LimitCheckError.account_limit_exceeded

second_charge_refused :
    events_of (deliveries 20 two_charges)
    ≡ operation_result 1
        (Operation.limit_account 7 (some 0x42700000))
        (OperationResult.limit_account LimitResult.ok)
        true
        none
      ∷ operation_result 2 charge_of_fifty (OperationResult.charge ChargeResult.ok) true none
      ∷ operation_result 3 charge_of_fifty
          (OperationResult.charge (ChargeResult.failed over_limit))
          false
          (some over_limit)
      ∷ []
unfolding deliveries new_router new_account new_card new_system submit send handle_cmd receive
    handle_card handle_account handle_charge_reply handle_internal fge fgt fadd
second_charge_refused = refl
