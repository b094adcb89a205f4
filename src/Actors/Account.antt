-- ===== src/Actors/Account.antt =====
-- server/src/node/actors/account.rs
pub mod Inputs
pub mod Limits
pub mod Replies
pub mod Queries
pub mod Overlaps
pub mod Reasons
mod Tests
use ypf_fleet_fuel_distribut.Prelude.{
  ℕ, ◌-◌, Bool, true, false, Option, none, some, List, [], ◌∷◌, ◌++◌, ltb, ◌==◌, if◌then◌else◌,
}
use ypf_fleet_fuel_distribut.Float.{F32, fadd, fgt, fge, fsum, pos_zero}
use ypf_fleet_fuel_distribut.Domain.{
  VerifyError, LimitCheckError, LimitUpdateError, charge_limit, limit_update,
  account_limit_exceeded, below_current_usage,
}
use ypf_fleet_fuel_distribut.Actors.Messages.{
  CardKey, AccountMsg, RouterInternalMsg, Effect, to_router, reply_to_card, apply_charge_from_card,
  apply_account_limit, start_account_query, start_account_bill, card_query_reply,
  operation_completed, account_query_completed, account_snapshot_collected,
}

pub record AccountPendingQuery : Type 0 where
  pub op_id : ℕ
  pub remaining : ℕ
  pub per_card_spent : List (ℕ × F32)
  pub billing : Bool

pub record AccountActor : Type 0 where
  pub account_id : ℕ
  pub account_limit : Option F32
  pub account_consumed : F32
  pub pending_query : Option AccountPendingQuery

-- `AccountActor::new`
unfoldable pub new_account : ℕ → AccountActor
new_account account_id = record {
  account_id = account_id;
  account_limit = none;
  account_consumed = pos_zero;
  pending_query = none;
}

-- `none` is `Ok(())`.
unfoldable pub check_account_limit : AccountActor → F32 → Option LimitCheckError
check_account_limit a amount = elim a.account_limit [
  | none ↦ none
  | some limit ↦
      if fgt (fadd a.account_consumed amount) limit then some account_limit_exceeded else none
]

unfoldable pub can_raise_limit : Option F32 → F32 → Option LimitUpdateError
can_raise_limit none already_consumed = none
can_raise_limit (some lim) already_consumed =
    if fge lim already_consumed then none else some below_current_usage

reply : CardKey → ℕ → Bool → Option VerifyError → Effect
reply key op_id success error =
    reply_to_card key (record { op_id = op_id; success = success; error = error })

apply_charge : AccountActor → ℕ → F32 → Bool → CardKey → AccountActor × List Effect
unfolding check_account_limit reply
apply_charge a op_id amount from_offline_station reply_to =
    let charged : AccountActor = record a { account_consumed = fadd a.account_consumed amount } in
    if from_offline_station
    then (charged, reply reply_to op_id true none ∷ [])
    else elim (check_account_limit a amount) [
      | none ↦ (charged, reply reply_to op_id true none ∷ [])
      | some e ↦ (a, reply reply_to op_id false (some (charge_limit e)) ∷ [])
    ]

apply_limit : AccountActor → ℕ → Option F32 → AccountActor × List Effect
unfolding can_raise_limit
apply_limit a op_id new_limit = elim (can_raise_limit new_limit a.account_consumed) [
  | none ↦
      (record a { account_limit = new_limit }, to_router (operation_completed op_id true none) ∷ [])
  | some e ↦ (a, to_router (operation_completed op_id false (some (limit_update e))) ∷ [])
]

start_query : AccountActor → ℕ → ℕ → AccountActor × List Effect
start_query a op_id num_cards =
    if num_cards == 0
    then (a, to_router (account_query_completed op_id a.account_id a.account_consumed []) ∷ [])
    else (
      record a {
        pending_query =
            some (record {
              op_id = op_id;
              remaining = num_cards;
              per_card_spent = [];
              billing = false;
            });
      },
      [],
    )

start_bill : AccountActor → ℕ → ℕ → AccountActor × List Effect
start_bill a op_id num_cards =
    if num_cards == 0
    then (
      record a { account_consumed = pos_zero },
      to_router (account_query_completed op_id a.account_id a.account_consumed []) ∷ [],
    )
    else (
      record a {
        pending_query =
            some (record {
              op_id = op_id;
              remaining = num_cards;
              per_card_spent = [];
              billing = true;
            });
      },
      [],
    )

-- The amounts of `per_card_spent`.
abbrev pub amounts : List (ℕ × F32) → List F32
amounts [] = []
amounts ((card, amount) ∷ spent) = amount ∷ amounts spent

-- The reply of a card to the query `p`, whose id it matches.
collect : AccountActor → AccountPendingQuery → ℕ → F32 → AccountActor × List Effect
collect a p card_id consumed =
    let spent = p.per_card_spent ++ (card_id, consumed) ∷ [] in
    let remaining = if ltb 0 p.remaining then p.remaining - 1 else p.remaining in
    if remaining == 0
    then (
      record a {
        account_consumed = if p.billing then pos_zero else a.account_consumed;
        pending_query = none;
      },
      to_router (account_query_completed p.op_id a.account_id (fsum (amounts spent)) spent) ∷ [],
    )
    else (
      record a {
        pending_query = some (record p { remaining = remaining; per_card_spent = spent });
      },
      [],
    )

query_reply : AccountActor → ℕ → ℕ → F32 → AccountActor × List Effect
unfolding collect
query_reply a op_id card_id consumed = elim a.pending_query [
  | none ↦ (a, to_router RouterInternalMsg.debug ∷ [])
  | some p ↦
      if p.op_id == op_id
      then collect a p card_id consumed
      else (a, to_router RouterInternalMsg.debug ∷ [])
]

-- `Handler<AccountMsg>::handle`
unfoldable pub handle_account : AccountActor → AccountMsg → AccountActor × List Effect
unfolding apply_charge apply_limit start_query start_bill query_reply
handle_account a (apply_charge_from_card op_id amount _ from_offline_station reply_to) =
    apply_charge a op_id amount from_offline_station reply_to
handle_account a (apply_account_limit op_id new_limit) = apply_limit a op_id new_limit
handle_account a (start_account_query op_id num_cards) = start_query a op_id num_cards
handle_account a (start_account_bill op_id num_cards) = start_bill a op_id num_cards
handle_account a (card_query_reply op_id card_id consumed) = query_reply a op_id card_id consumed
handle_account a (AccountMsg.get_snapshot op_id) = (
  a,
  to_router (
        account_snapshot_collected op_id (record {
          account_id = a.account_id;
          limit = a.account_limit;
          consumed = a.account_consumed;
        }))
      ∷ [],
)
handle_account a (AccountMsg.replace_state new_limit new_consumed) =
    (record a { account_limit = new_limit; account_consumed = new_consumed }, [])
