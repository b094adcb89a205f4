-- ===== src/Actors/Account/Queries.antt =====
-- Queries and billings of an account: server/src/node/actors/account.rs.
use ypf_fleet_fuel_distribut.Actors.Account.Replies.{
  replies_to, BeginsNone, idle_silent, advanced, waiting_step, answer_to, last_step,
  replies_to-cons, replies_to-length, nil_of_length,
}
use ypf_fleet_fuel_distribut.Prelude.{
  false, true, append_assoc, append-nil, ℕ, ◌<◌, refl, ◌∙◌, length, arith, ◌≡◌, none, List, [], ◌∷◌,
  All, if◌then◌else◌, Bool, ◌++◌, some, sym, ap,
}
use ypf_fleet_fuel_distribut.Actors.Account.{
  amounts, AccountPendingQuery, AccountActor, handle_account,
}
use mathlib.Core.Path.{ap₂}
use ypf_fleet_fuel_distribut.Actors.Account.Inputs.{answers-append, run_account, answers}
use native.Mathlib.Decide.{dec_lt}
use ypf_fleet_fuel_distribut.Float.{fsum}
use ypf_fleet_fuel_distribut.Actors.Messages.{AccountMsg, start_account_query, start_account_bill}

-- A query that waits for as many replies as the messages hold is answered once, with the parts in
-- the order of the replies.
waiting_answered :
    (a : AccountActor) (p : AccountPendingQuery) (ms : List AccountMsg)
    → All BeginsNone ms
    → a.pending_query ≡ some p
    → 0 < p.remaining
    → p.remaining ≡ length (replies_to p.op_id ms)
    → (answers (run_account a ms).1
        ≡ answer_to p a.account_id (p.per_card_spent ++ replies_to p.op_id ms) ∷ [])
      × ((run_account a ms).0.pending_query ≡ none)
unfolding run_account
waiting_answered a p [] h e pos_ total = absurd (omega arith)
waiting_answered a p (m ∷ ms) h e pos_ total =
    let now = replies_to p.op_id (m ∷ []) in
    let counts = replies_to-length p.op_id m ms in
    elim (dec_lt (length now) p.remaining) [
      | yes more ↦
          let (silent, same, pending) = waiting_step a p m h.0 e more in
          let (later, idle) =
            waiting_answered (handle_account a m).0 (advanced p now) ms h.1 pending (omega arith)
              (omega (arith, counts)) in
          (
            answers-append (handle_account a m).1 _
                ∙ ap₂ ◌++◌ silent later
                ∙ ap₂ (λ i l. answer_to p i l ∷ []) same parts,
            idle,
          )
      | no last ↦
          let none_left = nil_of_length (replies_to p.op_id ms) (omega (arith, counts)) in
          let (answered, idle, _) = last_step a p m h.0 e pos_ (omega (arith, counts)) in
          let (silent, end) = idle_silent (handle_account a m).0 ms h.1 idle in
          (
            answers-append (handle_account a m).1 _
                ∙ ap₂ ◌++◌ answered silent
                ∙ ap (λ l. answer_to p a.account_id (p.per_card_spent ++ l) ∷ [])
                    (sym (replies_to-cons p.op_id m ms ∙ ap (◌++◌ now) none_left ∙ append-nil now)),
            end,
          )
    ]
  where
    parts :
        (p.per_card_spent ++ replies_to p.op_id (m ∷ [])) ++ replies_to p.op_id ms
        ≡ p.per_card_spent ++ replies_to p.op_id (m ∷ ms)
    parts =
        append_assoc p.per_card_spent (replies_to p.op_id (m ∷ [])) (replies_to p.op_id ms)
        ∙ ap (◌++◌ p.per_card_spent) (sym (replies_to-cons p.op_id m ms))

-- The message that begins a query, or a billing.
abbrev pub beginning : Bool → ℕ → ℕ → AccountMsg
beginning billing op_id num_cards =
    if billing then start_account_bill op_id num_cards else start_account_query op_id num_cards

abbrev pub asked : Bool → ℕ → ℕ → AccountPendingQuery
asked billing op_id num_cards = record {
  op_id = op_id;
  remaining = num_cards;
  per_card_spent = [];
  billing = billing;
}

pub begun :
    (billing : Bool) (a : AccountActor) (op_id num_cards : ℕ)
    → 0 < num_cards
    → handle_account a (beginning billing op_id num_cards)
      ≡ (record a { pending_query = some (asked billing op_id num_cards) }, [])
unfolding handle_account
begun true a op_id num_cards h = ground arith
begun false a op_id num_cards h = ground arith

-- A query or a billing of `num_cards` cards, more than none, that gets as many replies is answered
-- exactly once, with the amounts of the replies in their order and the sum of these, whatever else
-- reaches the account in between, charges and stray replies included; then nothing is pending. No
-- other query begins in the meantime.
pub query_answered :
    (billing : Bool) (a : AccountActor) (op_id num_cards : ℕ) (ms : List AccountMsg)
    → All BeginsNone ms
    → 0 < num_cards
    → num_cards ≡ length (replies_to op_id ms)
    → let (a', es) = run_account a (beginning billing op_id num_cards ∷ ms) in
      (answers es
        ≡ record {
          op_id = op_id;
          account_id = a.account_id;
          total_spent = fsum (amounts (replies_to op_id ms));
          per_card_spent = replies_to op_id ms;
        }
          ∷ [])
      × (a'.pending_query ≡ none)
unfolding run_account
query_answered billing a op_id num_cards ms h some_ total =
    rw (begun billing a op_id num_cards some_, run_account)
      (waiting_answered (record a { pending_query = some (asked billing op_id num_cards) })
        (asked billing op_id num_cards) ms h refl some_ total)
