-- ===== src/Actors/Account/Limits.antt =====
-- The limit of an account: server/src/node/actors/account.rs.
use ypf_fleet_fuel_distribut.Prelude.{
  ◌≡◌, refl, false, Option, none, some, List, [], ◌∷◌, arith, All,
}
use ypf_fleet_fuel_distribut.Float.{F32, pos_zero}
use ypf_fleet_fuel_distribut.Float.Order.{Within, fge→not_fgt}
use ypf_fleet_fuel_distribut.Actors.Messages.{
  AccountMsg, apply_charge_from_card, apply_account_limit, start_account_query, start_account_bill,
  card_query_reply,
}
use ypf_fleet_fuel_distribut.Actors.Account.{AccountActor, handle_account}
use ypf_fleet_fuel_distribut.Actors.Account.Inputs.{run_account}

-- The consumption is within the limit, and the limit is not negative.
pub record IsWithinLimit (a : AccountActor) : Type 0 where
  pub within : Within a.account_limit a.account_consumed
  pub not_negative : Within a.account_limit pos_zero

-- A message that no limit is exempt from: the charge is not one of an offline station, and new
-- limits are not negative.
abbrev pub IsLimited : AccountMsg → Type 0
IsLimited (apply_charge_from_card _ _ _ from_offline_station _) = from_offline_station ≡ false
IsLimited (apply_account_limit _ new_limit) = Within new_limit pos_zero
IsLimited (AccountMsg.replace_state new_limit new_consumed) =
    Within new_limit new_consumed × Within new_limit pos_zero
IsLimited _ = Unit

handle_account-IsWithinLimit :
    (a : AccountActor) (m : AccountMsg) (limit : Option F32)
    → a.account_limit ≡ limit
    → IsLimited m
    → IsWithinLimit a
    → IsWithinLimit (handle_account a m).0
unfolding handle_account
handle_account-IsWithinLimit a (apply_charge_from_card op_id x k offline r) none e l v =
    ground (arith, v.within, v.not_negative)
handle_account-IsWithinLimit a (apply_charge_from_card op_id x k offline r) (some limit) e l v =
    ground (arith, v.within, v.not_negative)
handle_account-IsWithinLimit a (apply_account_limit op_id none) limit e l v =
    ground (arith, v.within, v.not_negative)
handle_account-IsWithinLimit a (apply_account_limit op_id (some lim)) limit e l v =
    ground (arith, v.within, v.not_negative, fge→not_fgt lim a.account_consumed)
handle_account-IsWithinLimit a (start_account_query op_id n) limit e l v =
    ground (arith, v.within, v.not_negative)
handle_account-IsWithinLimit a (start_account_bill op_id n) limit e l v =
    ground (arith, v.within, v.not_negative)
handle_account-IsWithinLimit a (card_query_reply op_id k x) limit e l v =
    ground (arith, v.within, v.not_negative)
handle_account-IsWithinLimit a (AccountMsg.get_snapshot op_id) limit e l v = v
handle_account-IsWithinLimit a (AccountMsg.replace_state new_limit x) limit e l v = record {
  within = l.0;
  not_negative = l.1;
}

abbrev pub AllLimited : List AccountMsg → Type 0
AllLimited = All IsLimited

-- No history takes the consumption of an account over its limit: neither charges, limit changes,
-- queries nor billings, in any order. The history has no charge of an offline station and sets no
-- negative limit, and each snapshot that it loads is within its own limit, which is not negative,
-- as the account is at first.
pub run_account-IsWithinLimit :
    (a : AccountActor) (ms : List AccountMsg)
    → AllLimited ms
    → IsWithinLimit a
    → IsWithinLimit (run_account a ms).0
unfolding run_account
run_account-IsWithinLimit a [] l v = v
run_account-IsWithinLimit a (m ∷ ms) l v =
    run_account-IsWithinLimit (handle_account a m).0 ms l.1
      (handle_account-IsWithinLimit a m a.account_limit refl l.0 v)
