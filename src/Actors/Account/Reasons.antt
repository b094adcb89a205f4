-- ===== src/Actors/Account/Reasons.antt =====
-- The reasons that an account gives: server/src/node/actors/account.rs.
use ypf_fleet_fuel_distribut.Actors.Explained.{IsExplained}
use ypf_fleet_fuel_distribut.Prelude.{arith, All}
use ypf_fleet_fuel_distribut.Actors.Messages.{
  AccountMsg, apply_charge_from_card, apply_account_limit, card_query_reply,
}
use ypf_fleet_fuel_distribut.Actors.Account.{AccountActor, handle_account}

pub handle_account-IsExplained :
    (a : AccountActor) (m : AccountMsg) → All IsExplained (handle_account a m).1
unfolding handle_account
handle_account-IsExplained a (apply_charge_from_card op_id x k offline r) = ground arith
handle_account-IsExplained a (apply_account_limit op_id l) = ground arith
handle_account-IsExplained a (card_query_reply op_id k x) = ground arith
handle_account-IsExplained a m = ground arith
