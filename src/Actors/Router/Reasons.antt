-- ===== src/Actors/Router/Reasons.antt =====
-- What the router needs of a refusal: server/src/node/actors/actor_router.rs.
use ypf_fleet_fuel_distribut.Prelude.{
  lookup, ℕ, ◌≢◌, inl, inr, Bool, true, false, Option, none, some, List, [], ◌∷◌, arith, All,
  All-append, Option-cases, insert,
}
use ypf_fleet_fuel_distribut.Actors.Router.Replies.{
  ActorRouter, handle_internal, completion_result, charge_result, limit_result,
}
use ypf_fleet_fuel_distribut.Actors.Router.{
  cards_of, SocketAddr, get_database, request_card_snapshots, route, query_cards, query_account,
  replace_accounts, request_account_snapshots, replace_cards, get_or_create_account,
  get_or_create_card, handle_cmd,
}
use ypf_fleet_fuel_distribut.Actors.Explained.{HasReason, IsExplained}
use ypf_fleet_fuel_distribut.Domain.{VerifyError, AccountSnapshot, CardSnapshot, Operation}
use ypf_fleet_fuel_distribut.Actors.Messages.{
  CardKey, AccountMsg, RouterCmd, RouterInternalMsg, Effect, to_router, operation_completed,
  execute, get_log, start_account_query, start_account_bill,
}

started_account-IsExplained :
    (r : ActorRouter) (k : ℕ) → All IsExplained (get_or_create_account r k).1
unfolding get_or_create_account
started_account-IsExplained r k = ground arith

started_card-IsExplained :
    (r : ActorRouter) (key : CardKey) → All IsExplained (get_or_create_card r key).1
unfolding get_or_create_card
started_card-IsExplained r key = ground arith

query_cards-IsExplained :
    (r : ActorRouter) (op_id account_id : ℕ) (reset : Bool) (ks : List ℕ)
    → All IsExplained (query_cards r op_id account_id reset ks)
unfolding query_cards
query_cards-IsExplained r op_id account_id reset [] = tt
query_cards-IsExplained r op_id account_id reset (k ∷ ks) =
    ground (arith, query_cards-IsExplained r op_id account_id reset ks)

query_account-IsExplained :
    (r : ActorRouter) (op_id account_id : ℕ) (reset : Bool) (start : ℕ → ℕ → AccountMsg)
    → All IsExplained (query_account r op_id account_id reset start).1
unfolding query_account
query_account-IsExplained r op_id account_id reset start =
    let r' = (get_or_create_account r account_id).0 in
    All-append IsExplained _ _ (started_account-IsExplained r account_id)
      (tt, query_cards-IsExplained r' op_id account_id reset (cards_of account_id r'.cards))

request_accounts-IsExplained :
    (op_id : ℕ) (ks : List ℕ) → All IsExplained (request_account_snapshots op_id ks)
unfolding request_account_snapshots
request_accounts-IsExplained op_id [] = tt
request_accounts-IsExplained op_id (k ∷ ks) = (tt, request_accounts-IsExplained op_id ks)

request_cards-IsExplained :
    (op_id : ℕ) (ks : List CardKey) → All IsExplained (request_card_snapshots op_id ks)
unfolding request_card_snapshots
request_cards-IsExplained op_id [] = tt
request_cards-IsExplained op_id (k ∷ ks) = (tt, request_cards-IsExplained op_id ks)

get_database-IsExplained :
    (r : ActorRouter) (op_id : ℕ) (addr : SocketAddr)
    → All IsExplained (get_database r op_id addr).1
unfolding get_database
get_database-IsExplained r op_id addr = ground (
  arith,
  All-append IsExplained _ _ (request_accounts-IsExplained op_id r.accounts)
      (request_cards-IsExplained op_id r.cards),
)

replace_accounts-IsExplained :
    (r : ActorRouter) (snapshots : List AccountSnapshot)
    → All IsExplained (replace_accounts r snapshots).1
unfolding replace_accounts
replace_accounts-IsExplained r [] = tt
replace_accounts-IsExplained r (a ∷ snapshots) =
    All-append IsExplained _ _ (started_account-IsExplained r a.account_id)
      (tt, replace_accounts-IsExplained (get_or_create_account r a.account_id).0 snapshots)

replace_cards-IsExplained :
    (r : ActorRouter) (snapshots : List CardSnapshot)
    → All IsExplained (replace_cards r snapshots).1
unfolding replace_cards
replace_cards-IsExplained r [] = tt
replace_cards-IsExplained r (c ∷ snapshots) =
    let key : CardKey = record { account_id = c.account_id; card_id = c.card_id } in
    All-append IsExplained _ _ (started_card-IsExplained r key)
      (tt, replace_cards-IsExplained (get_or_create_card r key).0 snapshots)

route-IsExplained :
    (r : ActorRouter) (op_id : ℕ) (op : Operation) → All IsExplained (route r op_id op).1
unfolding route
route-IsExplained r op_id (Operation.charge account_id card_id x offline) =
    All-append IsExplained _ _ (started_card-IsExplained r _) (tt, tt)
route-IsExplained r op_id (Operation.limit_account account_id l) =
    All-append IsExplained _ _ (started_account-IsExplained r account_id) (tt, tt)
route-IsExplained r op_id (Operation.limit_card account_id card_id l) =
    All-append IsExplained _ _ (started_card-IsExplained r _) (tt, tt)
route-IsExplained r op_id (Operation.account_query account_id) =
    query_account-IsExplained r op_id account_id false start_account_query
route-IsExplained r op_id (Operation.bill account_id period) =
    query_account-IsExplained r op_id account_id true start_account_bill
route-IsExplained r op_id (Operation.get_database addr) = get_database-IsExplained r op_id addr
route-IsExplained r op_id (Operation.replace_database snapshot) =
    let r' = (replace_accounts r snapshot.accounts).0 in
    All-append IsExplained _ _
      (All-append IsExplained _ _ (replace_accounts-IsExplained r snapshot.accounts)
        (replace_cards-IsExplained r' snapshot.cards))
      (tt, tt)

pub handle_cmd-IsExplained :
    (r : ActorRouter) (cmd : RouterCmd) → All IsExplained (handle_cmd r cmd).1
unfolding handle_cmd
handle_cmd-IsExplained r (execute op_id op) =
    route-IsExplained (record r { operations = insert op_id op r.operations }) op_id op
handle_cmd-IsExplained r get_log = (tt, tt)

-- No panic, and what is sent is explained.
abbrev pub IsHandled : Option (ActorRouter × List Effect) → Type 0
IsHandled none = ⊥
IsHandled (some (r, es)) = All IsExplained es

completion_result-none :
    (op : Operation) (success : Bool) (error : Option VerifyError)
    → HasReason success error
    → completion_result op success error ≢ none
unfolding completion_result charge_result limit_result
completion_result-none op success error h = ground arith

complete_operation-IsHandled :
    (r : ActorRouter) (op_id : ℕ) (success : Bool) (error : Option VerifyError)
    → HasReason success error
    → IsHandled (handle_internal r (operation_completed op_id success error))
unfolding handle_internal
complete_operation-IsHandled r op_id success error h =
    elim (Option-cases (lookup op_id r.operations)) [
      | inl e ↦ ground arith
      | inr (op, e) ↦ ground (arith, completion_result-none op success error h)
    ]

-- The messages that reach the router do not make it panic if their refusals have reasons.
pub handle_internal-IsHandled :
    (r : ActorRouter) (m : RouterInternalMsg)
    → IsExplained (to_router m)
    → IsHandled (handle_internal r m)
unfolding handle_internal
handle_internal-IsHandled r (operation_completed op_id success error) h =
    complete_operation-IsHandled r op_id success error h
handle_internal-IsHandled r m h = ground arith
