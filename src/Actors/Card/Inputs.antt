-- ===== src/Actors/Card/Inputs.antt =====
-- The history of a card: server/src/node/actors/card.rs, both handlers.
use ypf_fleet_fuel_distribut.Prelude.{List, [], ◌∷◌, ◌++◌}
use ypf_fleet_fuel_distribut.Actors.Messages.{CardMsg, AccountChargeReply, Effect}
use ypf_fleet_fuel_distribut.Actors.Card.{CardActor, handle_card, handle_charge_reply}

-- What a card is sent: by the router, or by its account.
pub data CardInput : Type 0 where
  msg : CardMsg → CardInput
  reply : AccountChargeReply → CardInput

unfoldable pub handle_input : CardActor → CardInput → CardActor × List Effect
handle_input c (msg m) = handle_card c m
handle_input c (reply r) = handle_charge_reply c r

-- A whole history of a card: its last state, and all that it sent.
unfoldable pub run_card : CardActor → List CardInput → CardActor × List Effect
run_card c [] = (c, [])
run_card c (i ∷ is) =
    let (c', es) = handle_input c i in let (c'', rest) = run_card c' is in (c'', es ++ rest)
