-- ===== src/Actors/Router.antt =====
-- server/src/node/actors/actor_router.rs
mod Replies
pub mod Snapshots
pub mod Reasons
mod Tests
unfoldable pub use Replies.*
use ypf_fleet_fuel_distribut.Prelude.{
  ℕ, Bool, true, false, ◌&&◌, ◌||◌, none, List, [], ◌∷◌, ◌++◌, ◌==◌, if◌then◌else◌, length, insert,
}
use ypf_fleet_fuel_distribut.Domain.{
  SocketAddr, AccountSnapshot, CardSnapshot, Operation, OperationResult,
}
use ypf_fleet_fuel_distribut.Actors.Messages.{
  CardKey, ActorEvent, AccountMsg, CardMsg, RouterCmd, Effect, to_account, to_card, to_node,
  start_account, start_card, execute, get_log, operation_result, apply_account_limit,
  start_account_query, start_account_bill, execute_charge, execute_limit_change, query_card_state,
}

-- `key == other`
abbrev pub same_card : CardKey → CardKey → Bool
same_card k j = k.account_id == j.account_id && k.card_id == j.card_id

-- `contains` for the keys of the two maps of actors.
abbrev pub has_account : ℕ → List ℕ → Bool
has_account k [] = false
has_account k (j ∷ js) = k == j || has_account k js

abbrev pub has_card : CardKey → List CardKey → Bool
has_card k [] = false
has_card k (j ∷ js) = same_card k j || has_card k js

unfoldable pub get_or_create_account : ActorRouter → ℕ → ActorRouter × List Effect
get_or_create_account r account_id =
    if has_account account_id r.accounts
    then (r, [])
    else (record r { accounts = r.accounts ++ account_id ∷ [] }, start_account account_id ∷ [])

unfoldable pub get_or_create_card : ActorRouter → CardKey → ActorRouter × List Effect
unfolding get_or_create_account
get_or_create_card r key =
    if has_card key r.cards
    then (r, [])
    else let (r', started) = get_or_create_account r key.account_id in
      (record r' { cards = r'.cards ++ key ∷ [] }, started ++ start_card key ∷ [])

-- The cards of an account, in the order of the map.
unfoldable pub cards_of : ℕ → List CardKey → List ℕ
cards_of account_id [] = []
cards_of account_id (k ∷ ks) =
    if k.account_id == account_id
    then k.card_id ∷ cards_of account_id ks
    else cards_of account_id ks

-- The loop that asks each card for its state.
query_cards : ActorRouter → ℕ → ℕ → Bool → List ℕ → List Effect
query_cards r op_id account_id reset [] = []
query_cards r op_id account_id reset (card_id ∷ card_ids) =
    let key : CardKey = record { account_id = account_id; card_id = card_id } in
    (if has_card key r.cards
      then to_card key (query_card_state op_id account_id reset) ∷ []
      else [])
    ++ query_cards r op_id account_id reset card_ids

-- `AccountQuery`, and `Bill` with `reset` set.
query_account : ActorRouter → ℕ → ℕ → Bool → (ℕ → ℕ → AccountMsg) → ActorRouter × List Effect
unfolding get_or_create_account cards_of query_cards
query_account r op_id account_id reset start =
    let (r', started) = get_or_create_account r account_id in
    let card_ids = cards_of account_id r'.cards in
    (
      r',
      started
          ++ to_account account_id (start op_id (length card_ids))
            ∷ query_cards r' op_id account_id reset card_ids,
    )

request_account_snapshots : ℕ → List ℕ → List Effect
request_account_snapshots op_id [] = []
request_account_snapshots op_id (k ∷ ks) =
    to_account k (AccountMsg.get_snapshot op_id) ∷ request_account_snapshots op_id ks

request_card_snapshots : ℕ → List CardKey → List Effect
request_card_snapshots op_id [] = []
request_card_snapshots op_id (k ∷ ks) =
    to_card k (CardMsg.get_snapshot op_id) ∷ request_card_snapshots op_id ks

get_database : ActorRouter → ℕ → SocketAddr → ActorRouter × List Effect
unfolding request_account_snapshots request_card_snapshots
get_database r op_id addr =
    if length r.accounts == 0 && length r.cards == 0
    then (
      r,
      to_node (
            operation_result op_id (Operation.get_database addr)
              (OperationResult.database_snapshot
                (record { addr = addr; accounts = []; cards = [] }))
              true none)
          ∷ [],
    )
    else (
      record r {
        pending_db_snapshots =
            insert op_id
              (record {
                addr = addr;
                expected_accounts = length r.accounts;
                expected_cards = length r.cards;
                accounts = [];
                cards = [];
              })
              r.pending_db_snapshots;
      },
      request_account_snapshots op_id r.accounts ++ request_card_snapshots op_id r.cards,
    )

replace_accounts : ActorRouter → List AccountSnapshot → ActorRouter × List Effect
unfolding get_or_create_account
replace_accounts r [] = (r, [])
replace_accounts r (a ∷ as') =
    let (r', started) = get_or_create_account r a.account_id in
    let (r'', rest) = replace_accounts r' as' in
    (r'', started ++ to_account a.account_id (AccountMsg.replace_state a.limit a.consumed) ∷ rest)

replace_cards : ActorRouter → List CardSnapshot → ActorRouter × List Effect
unfolding get_or_create_card
replace_cards r [] = (r, [])
replace_cards r (c ∷ cs) =
    let key : CardKey = record { account_id = c.account_id; card_id = c.card_id } in
    let (r', started) = get_or_create_card r key in
    let (r'', rest) = replace_cards r' cs in
    (r'', started ++ to_card key (CardMsg.replace_state c.limit c.consumed) ∷ rest)

-- What `Execute` does after it has stored the operation.
route : ActorRouter → ℕ → Operation → ActorRouter × List Effect
unfolding get_or_create_account get_or_create_card query_account get_database replace_accounts
    replace_cards
route r op_id (Operation.charge account_id card_id amount from_offline_station) =
    let key : CardKey = record { account_id = account_id; card_id = card_id } in
    let (r', started) = get_or_create_card r key in
    (
      r',
      started
          ++ to_card key (execute_charge op_id account_id card_id amount from_offline_station) ∷ [],
    )
route r op_id (Operation.limit_account account_id new_limit) =
    let (r', started) = get_or_create_account r account_id in
    (r', started ++ to_account account_id (apply_account_limit op_id new_limit) ∷ [])
route r op_id (Operation.limit_card account_id card_id new_limit) =
    let key : CardKey = record { account_id = account_id; card_id = card_id } in
    let (r', started) = get_or_create_card r key in
    (r', started ++ to_card key (execute_limit_change op_id new_limit) ∷ [])
route r op_id (Operation.account_query account_id) =
    query_account r op_id account_id false start_account_query
route r op_id (Operation.bill account_id period) =
    query_account r op_id account_id true start_account_bill
route r op_id (Operation.get_database addr) = get_database r op_id addr
route r op_id (Operation.replace_database snapshot) =
    let (r', account_effects) = replace_accounts r snapshot.accounts in
    let (r'', card_effects) = replace_cards r' snapshot.cards in
    (
      r'',
      account_effects
          ++ card_effects
          ++ to_node (
              operation_result op_id (Operation.replace_database snapshot)
                OperationResult.replace_database true none)
            ∷ [],
    )

-- `Handler<RouterCmd>::handle`
unfoldable pub handle_cmd : ActorRouter → RouterCmd → ActorRouter × List Effect
unfolding route
handle_cmd r (execute op_id operation) =
    route (record r { operations = insert op_id operation r.operations }) op_id operation
handle_cmd r get_log = (r, to_node ActorEvent.debug ∷ [])
