-- ===== src/Actors/Card/Tests.antt =====
-- Cards at work: server/src/node/actors/card.rs.
use ypf_fleet_fuel_distribut.Prelude.{◌≡◌, refl, true, false, none, some, List, [], ◌∷◌}
use ypf_fleet_fuel_distribut.Float.{fge, fadd, fgt}
use ypf_fleet_fuel_distribut.Actors.Messages.{execute_charge, execute_limit_change}
use ypf_fleet_fuel_distribut.Actors.Card.{CardActor, handle_card, handle_charge_reply}
use ypf_fleet_fuel_distribut.Actors.Card.Inputs.{CardInput, msg, reply, handle_input, run_card}
use ypf_fleet_fuel_distribut.Actors.Card.Fifo.{run_card-Accounts}
use ypf_fleet_fuel_distribut.Actors.Card.Tasks.{Accounts, completed, held}
use ypf_fleet_fuel_distribut.Actors.Card.Offline.{offline_charge_passes, NotRefused}
use ypf_fleet_fuel_distribut.Actors.Card.Limits.{IsWithinLimit, run_card-IsWithinLimit}

-- 20.0 of a limit of 100.0
abbrev card : CardActor
card = record {
  card_id = 1;
  account_id = 7;
  limit = some 0x42C80000;
  consumed = 0x41A00000;
  current_task = none;
  queue = [];
}

-- Two charges of 50.0 and a limit of 60.0, the answer to the first charge, and one to nothing.
abbrev history : List CardInput
history =
    msg (execute_charge 1 7 1 0x42480000 false)
    ∷ msg (execute_charge 2 7 1 0x42480000 false)
    ∷ msg (execute_limit_change 3 (some 0x42700000))
    ∷ reply (record { op_id = 1; success = true; error = none })
    ∷ reply (record { op_id = 9; success = true; error = none })
    ∷ msg (execute_charge 4 7 1 0x41A00000 false)
    ∷ []

-- The second charge and the limit are refused; the last charge is under way.
history-completed :
    (completed (run_card card history).1 ≡ 1 ∷ 2 ∷ 3 ∷ [])
    × (held (run_card card history).0 ≡ 4 ∷ [])
unfolding run_card handle_input handle_card handle_charge_reply fgt fge fadd
history-completed = (refl, refl)

run_card-Accounts_example : Accounts card (1 ∷ 2 ∷ 3 ∷ 4 ∷ []) (run_card card history)
run_card-Accounts_example =
    run_card-Accounts card history refl ((refl, refl), ((refl, refl), (tt, ((refl, refl), tt))))

card-IsWithinLimit : IsWithinLimit card
unfolding fgt
card-IsWithinLimit = record { within = refl; admitted = tt; online = tt }

run_card-IsWithinLimit_example : IsWithinLimit (run_card card history).0
run_card-IsWithinLimit_example =
    run_card-IsWithinLimit card history (refl, (refl, (tt, (refl, tt)))) card-IsWithinLimit

-- 500.0, which an offline station has granted, behind a charge that the card is busy with.
abbrev busy_history : List CardInput
busy_history =
    msg (execute_charge 5 7 1 0x42480000 false)
    ∷ msg (execute_charge 6 7 1 0x43FA0000 true)
    ∷ reply (record { op_id = 5; success = true; error = none })
    ∷ []

offline_charge_passes_example : NotRefused 6 (run_card card busy_history).1
offline_charge_passes_example =
    offline_charge_passes 6 card busy_history (record { now = tt; waiting = tt })
      ((refl, refl, λ h. h), ((refl, refl, λ h. refl), (refl, tt)))
