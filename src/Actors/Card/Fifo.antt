-- ===== src/Actors/Card/Fifo.antt =====
-- The order in which a card answers: server/src/node/actors/card.rs.
use ypf_fleet_fuel_distribut.Actors.Card.Tasks.{
  held, completed, completed_by, IsOrderly, Accounts, arriving, IsRouted, handle_card-Accounts,
  handle_charge_reply-Accounts,
}
use ypf_fleet_fuel_distribut.Prelude.{
  ℕ, ◌≡◌, refl, sym, ap, ◌∙◌, List, [], ◌∷◌, ◌++◌, append-nil, append_assoc,
}
use ypf_fleet_fuel_distribut.Actors.Messages.{
  CardMsg, Effect, execute_charge, execute_limit_change, query_card_state,
}
use ypf_fleet_fuel_distribut.Actors.Card.Inputs.{CardInput, msg, reply, handle_input, run_card}
use ypf_fleet_fuel_distribut.Actors.Card.{CardActor, handle_card, handle_charge_reply}

abbrev pub arriving_all : List CardInput → List ℕ
arriving_all [] = []
arriving_all (msg m ∷ is) = arriving m ++ arriving_all is
arriving_all (reply r ∷ is) = arriving_all is

-- Every message of the history is for the card with this key, and none replaces its state.
abbrev pub AllRouted : CardActor → List CardInput → Type 0
AllRouted c [] = Unit
AllRouted c (msg m ∷ is) = IsRouted c m × AllRouted c is
AllRouted c (reply r ∷ is) = AllRouted c is

completed-append : (es fs : List Effect) → completed (es ++ fs) ≡ completed es ++ completed fs
completed-append [] fs = refl
completed-append (e ∷ es) fs =
    ap (◌++◌ (completed_by e)) (completed-append es fs)
    ∙ sym (append_assoc (completed_by e) (completed es) (completed fs))

IsRouted-key :
    (c c' : CardActor) (m : CardMsg)
    → c'.account_id ≡ c.account_id
    → c'.card_id ≡ c.card_id
    → IsRouted c m
    → IsRouted c' m
IsRouted-key c c' (execute_charge op_id a k x offline) e f h = (h.0 ∙ sym e, h.1 ∙ sym f)
IsRouted-key c c' (execute_limit_change op_id l) e f h = tt
IsRouted-key c c' (query_card_state op_id a reset) e f h = tt
IsRouted-key c c' (CardMsg.get_snapshot op_id) e f h = tt
IsRouted-key c c' (CardMsg.replace_state l x) e f h = absurd h
IsRouted-key c c' CardMsg.debug e f h = tt

AllRouted-key :
    (c c' : CardActor) (is : List CardInput)
    → c'.account_id ≡ c.account_id
    → c'.card_id ≡ c.card_id
    → AllRouted c is
    → AllRouted c' is
AllRouted-key c c' [] e f h = tt
AllRouted-key c c' (msg m ∷ is) e f h = (IsRouted-key c c' m e f h.0, AllRouted-key c c' is e f h.1)
AllRouted-key c c' (reply r ∷ is) e f h = AllRouted-key c c' is e f h

-- One more step before a history that is known to answer for its own arrivals.
run_step :
    (c c' : CardActor) (now later : List ℕ) (es : List Effect) (rest : CardActor × List Effect)
    → Accounts c (held c ++ now) (c', es)
    → Accounts c' (held c' ++ later) rest
    → Accounts c (held c ++ (now ++ later)) (rest.0, es ++ rest.1)
run_step c c' now later es rest (first, orderly, account, card) (then_, orderly', account', card') =
    (
      ap (λ l. l ++ held rest.0) (completed-append es rest.1)
          ∙ append_assoc (completed es) (completed rest.1) (held rest.0)
          ∙ ap (◌++◌ (completed es)) then_
          ∙ sym (append_assoc (completed es) (held c') later)
          ∙ ap (λ l. l ++ later) first
          ∙ append_assoc (held c) now later,
      orderly',
      account' ∙ account,
      card' ∙ card,
    )

-- A card answers in the order of arrival: what it has reported as completed, followed by what it
-- holds (the task under way, then the queue), is what it held at first, followed by the charges and
-- limit changes that arrived. So each operation is answered at most once, none is overtaken and none
-- is lost, whatever the replies of the account and whenever they come, also replies to nothing.
-- The history has charges for this card only, and no snapshot that replaces the card's state.
pub run_card-Accounts :
    (c : CardActor) (is : List CardInput)
    → IsOrderly c
    → AllRouted c is
    → Accounts c (held c ++ arriving_all is) (run_card c is)
unfolding run_card handle_input
run_card-Accounts c [] h r = (sym (append-nil (held c)), h, refl, refl)
run_card-Accounts c (msg m ∷ is) h r =
    let first = handle_card-Accounts c m h r.0 in
    let c' = (handle_card c m).0 in
    run_step c c' (arriving m) (arriving_all is) (handle_card c m).1 (run_card c' is) first
      (run_card-Accounts c' is first.1 (AllRouted-key c c' is first.2 first.3 r.1))
run_card-Accounts c (reply r ∷ is) h rs =
    let first = handle_charge_reply-Accounts c r h in
    let c' = (handle_charge_reply c r).0 in
    run_step c c' [] (arriving_all is) (handle_charge_reply c r).1 (run_card c' is)
      (first.0 ∙ sym (append-nil (held c)), first.1, first.2, first.3)
      (run_card-Accounts c' is first.1 (AllRouted-key c c' is first.2 first.3 rs))
