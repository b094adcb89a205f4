-- ===== src/Actors/Account/Overlaps.antt =====
-- Overlapping queries and billings of an account: server/src/node/actors/account.rs.
use ypf_fleet_fuel_distribut.Prelude.{
  ℕ, ◌≡◌, ◌≢◌, ◌<◌, refl, sym, ap, ◌∙◌, inl, inr, Bool, true, Option, none, some, List, [], ◌∷◌,
  ◌++◌, arith, All, All-append, Option-cases, length,
}
use ypf_fleet_fuel_distribut.Float.{F32, pos_zero}
use ypf_fleet_fuel_distribut.Actors.Messages.{
  AccountMsg, start_account_query, start_account_bill, card_query_reply,
}
use ypf_fleet_fuel_distribut.Actors.Account.{AccountActor, AccountPendingQuery, handle_account}
use ypf_fleet_fuel_distribut.Actors.Account.Inputs.{
  run_account, QueryResult, answers, answers-append,
}
use ypf_fleet_fuel_distribut.Actors.Account.Queries.{beginning, begun, asked}
use ypf_fleet_fuel_distribut.Actors.Account.Replies.{
  BeginsNone, replies_to, replies_to-cons, waiting_step, last_step, advanced,
}

-- No query of the operation `op_id` is pending.
abbrev NotPending : ℕ → Option AccountPendingQuery → Type 0
NotPending op_id none = Unit
NotPending op_id (some p) = p.op_id ≢ op_id

-- The message does not begin the operation `op_id` again.
abbrev pub NotBegun : ℕ → AccountMsg → Type 0
NotBegun op_id (start_account_query k _) = k ≢ op_id
NotBegun op_id (start_account_bill k _) = k ≢ op_id
NotBegun op_id _ = Unit

-- None of the answers is to the operation `op_id`.
abbrev pub Unanswered : ℕ → List QueryResult → Type 0
Unanswered op_id = All λ r. r.op_id ≢ op_id

NotPending-step :
    (op_id : ℕ) (a : AccountActor) (m : AccountMsg)
    → NotBegun op_id m
    → NotPending op_id a.pending_query
    → Unanswered op_id (answers (handle_account a m).1)
      × NotPending op_id (handle_account a m).0.pending_query
unfolding handle_account
NotPending-step op_id a (card_query_reply k card x) h n = elim (Option-cases a.pending_query) [
  | inl e ↦ ground arith
  | inr (p, e) ↦ ground arith
]
NotPending-step op_id a m h n = ground arith

NotPending-run :
    (op_id : ℕ) (a : AccountActor) (ms : List AccountMsg)
    → All (NotBegun op_id) ms
    → NotPending op_id a.pending_query
    → Unanswered op_id (answers (run_account a ms).1)
unfolding run_account
NotPending-run op_id a [] h n = tt
NotPending-run op_id a (m ∷ ms) h n =
    let (now, later) = NotPending-step op_id a m h.0 n in
    rw answers-append (
      All-append _ (answers (handle_account a m).1) _ now
        (NotPending-run op_id (handle_account a m).0 ms h.1 later))

-- A second query or billing, of at least one card, makes the account forget a pending one: whatever
-- follows, replies of all its cards included, the operation `op_id` is never answered unless it is
-- begun again.
pub overwritten_query_lost :
    (billing : Bool) (a : AccountActor) (op_id other num_cards : ℕ) (ms : List AccountMsg)
    → other ≢ op_id
    → 0 < num_cards
    → All (NotBegun op_id) ms
    → Unanswered op_id (answers (run_account a (beginning billing other num_cards ∷ ms)).1)
unfolding run_account
overwritten_query_lost billing a op_id other num_cards ms ne some_ h =
    rw (begun billing a other num_cards some_, run_account)
      (NotPending-run op_id (record a { pending_query = some (asked billing other num_cards) }) ms h
        ne)

append-eq-nil {ℓ} : {A : Type ℓ} (xs ys : List A) → xs ++ ys ≡ [] → (xs ≡ []) × (ys ≡ [])
append-eq-nil [] ys h = (refl, h)
append-eq-nil (x ∷ xs) ys h = cc

-- While a billing waits for its last reply the account may accept charges; the reply then resets
-- the consumption to zero, these charges included.
pub bill_forgets_charges :
    (a : AccountActor) (p : AccountPendingQuery) (ms : List AccountMsg) (card_id : ℕ) (x : F32)
    → a.pending_query ≡ some p
    → p.billing ≡ true
    → p.remaining ≡ 1
    → All BeginsNone ms
    → replies_to p.op_id ms ≡ []
    → (run_account a (ms ++ card_query_reply p.op_id card_id x ∷ [])).0.account_consumed ≡ pos_zero
unfolding run_account
bill_forgets_charges a p [] card_id x e b one h none_ =
    (last_step a p (card_query_reply p.op_id card_id x) tt e (omega arith) (ground arith)).2
    ∙ ground arith
bill_forgets_charges a p (m ∷ ms) card_id x e b one h none_ =
    let (here, later) =
      append-eq-nil (replies_to p.op_id (m ∷ [])) (replies_to p.op_id ms)
        (sym (replies_to-cons p.op_id m ms) ∙ none_) in
    let (_, _, pending) = waiting_step a p m h.0 e (omega (arith, ap length here)) in
    bill_forgets_charges (handle_account a m).0 (advanced p (replies_to p.op_id (m ∷ []))) ms
      card_id x pending b (omega (arith, ap length here)) h.1 later
