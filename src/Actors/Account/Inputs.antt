-- ===== src/Actors/Account/Inputs.antt =====
-- The history of an account: server/src/node/actors/account.rs.
use ypf_fleet_fuel_distribut.Prelude.{◌≡◌, refl, sym, ap, ◌∙◌, append_assoc, ℕ, List, [], ◌∷◌, ◌++◌}
use ypf_fleet_fuel_distribut.Float.{F32}
use ypf_fleet_fuel_distribut.Actors.Messages.{
  AccountMsg, Effect, to_router, account_query_completed,
}
use ypf_fleet_fuel_distribut.Actors.Account.{AccountActor, handle_account}

-- The last state after a history of messages, and all that was sent.
unfoldable pub run_account : AccountActor → List AccountMsg → AccountActor × List Effect
run_account a [] = (a, [])
run_account a (m ∷ ms) =
    let (a', es) = handle_account a m in let (a'', rest) = run_account a' ms in (a'', es ++ rest)

-- The result of a query or a billing: the operation, the account, the total and each card's part.
pub record QueryResult : Type 0 where
  pub op_id : ℕ
  pub account_id : ℕ
  pub total_spent : F32
  pub per_card_spent : List (ℕ × F32)

abbrev pub answer_of : Effect → List QueryResult
answer_of (to_router (account_query_completed op_id account_id total spent)) =
    record { op_id = op_id; account_id = account_id; total_spent = total; per_card_spent = spent }
    ∷ []
answer_of _ = []

-- The answered queries among the effects, in order.
abbrev pub answers : List Effect → List QueryResult
answers [] = []
answers (e ∷ es) = answer_of e ++ answers es

pub answers-append : (es fs : List Effect) → answers (es ++ fs) ≡ answers es ++ answers fs
answers-append [] fs = refl
answers-append (e ∷ es) fs =
    ap (◌++◌ (answer_of e)) (answers-append es fs)
    ∙ sym (append_assoc (answer_of e) (answers es) (answers fs))
