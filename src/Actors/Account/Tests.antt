-- ===== src/Actors/Account/Tests.antt =====
-- Accounts at work: server/src/node/actors/account.rs.
use ypf_fleet_fuel_distribut.Prelude.{
  ◌≡◌, refl, true, false, none, some, List, [], ◌∷◌, ◌++◌, arith,
}
use ypf_fleet_fuel_distribut.Float.{fgt, fsum, pos_zero}
use ypf_fleet_fuel_distribut.Actors.Messages.{
  CardKey, AccountMsg, apply_charge_from_card, apply_account_limit, start_account_query,
  start_account_bill, card_query_reply,
}
use ypf_fleet_fuel_distribut.Actors.Account.{AccountActor, AccountPendingQuery, handle_account}
use ypf_fleet_fuel_distribut.Actors.Account.Inputs.{run_account, answers}
use ypf_fleet_fuel_distribut.Actors.Account.Limits.{IsWithinLimit, run_account-IsWithinLimit}
use ypf_fleet_fuel_distribut.Actors.Account.Queries.{query_answered}
use ypf_fleet_fuel_distribut.Actors.Account.Overlaps.{
  Unanswered, overwritten_query_lost, bill_forgets_charges,
}

-- 20.0 of a limit of 100.0
abbrev account : AccountActor
account = record {
  account_id = 7;
  account_limit = some 0x42C80000;
  account_consumed = 0x41A00000;
  pending_query = none;
}

abbrev card_one : CardKey
card_one = record { account_id = 7; card_id = 1 }

-- A charge of 30.0 in the middle of two replies, and a stray one.
abbrev replies : List AccountMsg
replies =
    card_query_reply 5 1 0x41A00000
    ∷ apply_charge_from_card 6 0x41F00000 1 false card_one
    ∷ card_query_reply 9 8 0x42480000
    ∷ card_query_reply 5 2 0x42480000
    ∷ []

query_answered_example :
    (answers (run_account account (start_account_query 5 2 ∷ replies)).1
      ≡ record {
        op_id = 5;
        account_id = 7;
        total_spent = fsum (0x41A00000 ∷ 0x42480000 ∷ []);
        per_card_spent = (1, 0x41A00000) ∷ (2, 0x42480000) ∷ [];
      }
        ∷ [])
    × ((run_account account (start_account_query 5 2 ∷ replies)).0.pending_query ≡ none)
query_answered_example =
    query_answered false account 5 2 replies (tt, (tt, (tt, (tt, tt)))) (omega arith) refl

account-IsWithinLimit : IsWithinLimit account
unfolding fgt
account-IsWithinLimit = record { within = refl; not_negative = refl }

-- Two charges of 50.0, of which the second is refused, a new limit of 60.0 and a billing.
abbrev history : List AccountMsg
history =
    apply_charge_from_card 1 0x42480000 1 false card_one
    ∷ apply_charge_from_card 2 0x42480000 1 false card_one
    ∷ apply_account_limit 3 (some 0x42700000)
    ∷ start_account_bill 4 0
    ∷ []

second_charge_refused : (run_account account history).0.account_consumed ≡ pos_zero
unfolding run_account handle_account
second_charge_refused = refl

limit_not_negative : fgt pos_zero 0x42700000 ≡ false
unfolding fgt
limit_not_negative = refl

run_account-IsWithinLimit_example : IsWithinLimit (run_account account history).0
run_account-IsWithinLimit_example =
    run_account-IsWithinLimit account history (refl, (refl, (limit_not_negative, (tt, tt))))
      account-IsWithinLimit

-- The query 5 of one card is overwritten by the billing 6; the reply to 5 comes too late.
abbrev late : List AccountMsg
late = card_query_reply 5 1 0x41A00000 ∷ card_query_reply 6 1 0x41A00000 ∷ []

abbrev asked_five : AccountActor
asked_five = record account {
  pending_query = some (record { op_id = 5; remaining = 1; per_card_spent = []; billing = false });
}

overwritten_query_lost_example :
    Unanswered 5 (answers (run_account asked_five (start_account_bill 6 1 ∷ late)).1)
overwritten_query_lost_example =
    overwritten_query_lost true asked_five 5 6 1 late (omega arith) (omega arith) (tt, (tt, tt))

abbrev pending_bill : AccountPendingQuery
pending_bill = record { op_id = 6; remaining = 1; per_card_spent = []; billing = true }

abbrev billed : AccountActor
billed = record account { pending_query = some pending_bill }

-- 30.0 charged while the billing waits.
abbrev meanwhile : List AccountMsg
meanwhile = apply_charge_from_card 8 0x41F00000 1 false card_one ∷ []

bill_forgets_charges_example :
    (run_account billed (meanwhile ++ card_query_reply 6 1 0x41A00000 ∷ [])).0.account_consumed
    ≡ pos_zero
bill_forgets_charges_example =
    bill_forgets_charges billed pending_bill meanwhile 1 0x41A00000 refl refl refl (tt, tt) refl
