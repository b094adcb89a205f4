-- ===== src/Actors/Messages.antt =====
-- server/src/node/actors/messages.rs
use ypf_fleet_fuel_distribut.Prelude.{ℕ, Bool, Option, List}
use ypf_fleet_fuel_distribut.Float.{F32}
use ypf_fleet_fuel_distribut.Domain.{
  AccountSnapshot, CardSnapshot, Operation, OperationResult, VerifyError,
}

-- The address of a card actor: its account and its id.
pub record CardKey : Type 0 where
  pub account_id : ℕ
  pub card_id : ℕ

pub data ActorEvent : Type 0 where
  operation_result :
      (op_id : ℕ) (operation : Operation) (result : OperationResult) (success : Bool)
      (error : Option VerifyError)
      → ActorEvent
  debug : ActorEvent

pub data RouterCmd : Type 0 where
  execute : (op_id : ℕ) (operation : Operation) → RouterCmd
  get_log : RouterCmd

pub data AccountMsg : Type 0 where
  apply_charge_from_card :
      (op_id : ℕ) (amount : F32) (card_id : ℕ) (from_offline_station : Bool) (reply_to : CardKey)
      → AccountMsg
  apply_account_limit : (op_id : ℕ) (new_limit : Option F32) → AccountMsg
  start_account_query : (op_id num_cards : ℕ) → AccountMsg
  start_account_bill : (op_id num_cards : ℕ) → AccountMsg
  card_query_reply : (op_id card_id : ℕ) (consumed : F32) → AccountMsg
  get_snapshot : (op_id : ℕ) → AccountMsg
  replace_state : (new_limit : Option F32) (new_consumed : F32) → AccountMsg

pub record AccountChargeReply : Type 0 where
  pub op_id : ℕ
  pub success : Bool
  pub error : Option VerifyError

pub data CardMsg : Type 0 where
  execute_charge :
      (op_id account_id card_id : ℕ) (amount : F32) (from_offline_station : Bool) → CardMsg
  execute_limit_change : (op_id : ℕ) (new_limit : Option F32) → CardMsg
  query_card_state : (op_id account_id : ℕ) (reset_after_report : Bool) → CardMsg
  get_snapshot : (op_id : ℕ) → CardMsg
  replace_state : (new_limit : Option F32) (new_consumed : F32) → CardMsg
  debug : CardMsg

pub data RouterInternalMsg : Type 0 where
  operation_completed :
      (op_id : ℕ) (success : Bool) (error : Option VerifyError) → RouterInternalMsg
  account_query_completed :
      (op_id account_id : ℕ) (total_spent : F32) (per_card_spent : List (ℕ × F32))
      → RouterInternalMsg
  account_snapshot_collected : (op_id : ℕ) (snapshot : AccountSnapshot) → RouterInternalMsg
  card_snapshot_collected : (op_id : ℕ) (snapshot : CardSnapshot) → RouterInternalMsg
  debug : RouterInternalMsg

-- What a handler sends, and to whom.
pub data Effect : Type 0 where
  to_router : RouterInternalMsg → Effect
  to_account : (account_id : ℕ) → AccountMsg → Effect
  to_card : CardKey → CardMsg → Effect
  reply_to_card : CardKey → AccountChargeReply → Effect
  -- `emit`: a `try_send`, which a full channel drops
  to_node : ActorEvent → Effect
  -- `AccountActor::new(..).start()` and `CardActor::new(..).start()`
  start_account : (account_id : ℕ) → Effect
  start_card : CardKey → Effect
