-- ===== src/Actors/System.antt =====
-- The actors of a node together: server/src/node/actors/. Messages under way are delivered in any
-- order, which allows more than the mailboxes of actix do.
pub mod Panics
mod Tests
use ypf_fleet_fuel_distribut.Prelude.{
  ℕ, Option, none, some, List, [], ◌∷◌, ◌++◌, ◌≡◌, ltb, length, ◌==◌, if◌then◌else◌,
}
use ypf_fleet_fuel_distribut.Actors.Messages.{
  CardKey, ActorEvent, RouterCmd, Effect, to_router, to_account, to_card, reply_to_card, to_node,
  start_account, start_card,
}
use ypf_fleet_fuel_distribut.Actors.Account.{AccountActor, new_account, handle_account}
use ypf_fleet_fuel_distribut.Actors.Card.{CardActor, new_card, handle_card, handle_charge_reply}
use ypf_fleet_fuel_distribut.Actors.Router.{
  ActorRouter, new_router, same_card, handle_cmd, handle_internal,
}

-- The started actors, the messages that are under way, and the events that the node has not read yet.
pub record System : Type 0 where
  pub router : ActorRouter
  pub accounts : ℕ → Option AccountActor
  pub cards : CardKey → Option CardActor
  pub in_flight : List Effect
  pub events : List ActorEvent

unfoldable pub new_system : System
new_system = record {
  router = new_router;
  accounts = λ k. none;
  cards = λ k. none;
  in_flight = [];
  events = [];
}

-- The size of the channel of events, in server/src/node/database.rs.
abbrev pub event_capacity : ℕ
event_capacity = 128

-- `emit`: a full channel drops the event.
unfoldable pub emit : List ActorEvent → ActorEvent → List ActorEvent
emit events ev = if ltb (length events) event_capacity then events ++ ev ∷ [] else events

put_account : ℕ → AccountActor → System → System
put_account k a s = record s { accounts = λ j. if k == j then some a else s.accounts j }

put_card : CardKey → CardActor → System → System
put_card k c s = record s { cards = λ j. if same_card k j then some c else s.cards j }

-- What is sent is under way; an actor that is started is there at once, and an event is in the channel or
-- dropped at once.
unfoldable pub send : System → List Effect → System
unfolding put_account put_card emit
send s [] = s
send s (start_account k ∷ es) = send (put_account k (new_account k) s) es
send s (start_card key ∷ es) = send (put_card key (new_card key.card_id key.account_id) s) es
send s (to_node ev ∷ es) = send (record s { events = emit s.events ev }) es
send s (e ∷ es) = send (record s { in_flight = s.in_flight ++ e ∷ [] }) es

-- The receiver of a message handles it. `none` is a panic.
unfoldable pub receive : System → Effect → Option System
unfolding put_account put_card
receive s (to_router m) = elim (handle_internal s.router m) [
  | none ↦ none
  | some (r, es) ↦ some (send (record s { router = r }) es)
]
receive s (to_account k m) = elim (s.accounts k) [
  | none ↦ some s
  | some a ↦ let (a', es) = handle_account a m in some (send (put_account k a' s) es)
]
receive s (to_card key m) = elim (s.cards key) [
  | none ↦ some s
  | some c ↦ let (c', es) = handle_card c m in some (send (put_card key c' s) es)
]
receive s (reply_to_card key r) = elim (s.cards key) [
  | none ↦ some s
  | some c ↦ let (c', es) = handle_charge_reply c r in some (send (put_card key c' s) es)
]
receive s (to_node e) = some s
receive s (start_account k) = some s
receive s (start_card key) = some s

-- The node gives the router a command.
unfoldable pub submit : System → RouterCmd → System
submit s cmd = let (r, es) = handle_cmd s.router cmd in send (record s { router = r }) es

-- One step: a command of the node, the node reads an event, or any message under way is delivered.
pub data Step : System → System → Type 0 where
  command : (s : System) (cmd : RouterCmd) → Step s (submit s cmd)
  read_event :
      (s : System) (ev : ActorEvent) (events : List ActorEvent)
      → s.events ≡ ev ∷ events
      → Step s (record s { events = events })
  deliver :
      (s t : System) (before after : List Effect) (e : Effect)
      → s.in_flight ≡ before ++ e ∷ after
      → receive (record s { in_flight = before ++ after }) e ≡ some t
      → Step s t

-- What the actors can come to from the start of the node.
pub data Reachable : System → Type 0 where
  start : Reachable new_system
  next : {s t : System} → Reachable s → Step s t → Reachable t
