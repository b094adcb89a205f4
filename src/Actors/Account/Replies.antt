-- ===== src/Actors/Account/Replies.antt =====
-- What one message does to a pending query: server/src/node/actors/account.rs.
use ypf_fleet_fuel_distribut.Prelude.{
  ◌+◌, length-append, append-nil, ℕ, ◌-◌, ◌<◌, refl, ◌∙◌, length, arith, ◌≡◌, none, List, [], ◌∷◌,
  All, ◌==◌, if◌then◌else◌, ◌++◌, some, ap,
}
use ypf_fleet_fuel_distribut.Actors.Account.{
  amounts, AccountPendingQuery, AccountActor, handle_account,
}
use mathlib.Core.Path.{ap₂}
use ypf_fleet_fuel_distribut.Actors.Account.Inputs.{
  QueryResult, answers-append, run_account, answers,
}
use ypf_fleet_fuel_distribut.Float.{F32, fsum, pos_zero}
use ypf_fleet_fuel_distribut.Actors.Messages.{
  AccountMsg, start_account_query, start_account_bill, card_query_reply,
}

-- The replies of cards to the operation, in order.
abbrev pub replies_to : ℕ → List AccountMsg → List (ℕ × F32)
replies_to k [] = []
replies_to k (card_query_reply op_id card_id consumed ∷ ms) =
    if op_id == k then (card_id, consumed) ∷ replies_to k ms else replies_to k ms
replies_to k (_ ∷ ms) = replies_to k ms

-- The message begins no query or billing.
abbrev pub BeginsNone : AccountMsg → Type 0
BeginsNone (start_account_query _ _) = ⊥
BeginsNone (start_account_bill _ _) = ⊥
BeginsNone _ = Unit

-- With no query pending, no message but a beginning has an answer.
idle_step :
    (a : AccountActor) (m : AccountMsg)
    → BeginsNone m
    → a.pending_query ≡ none
    → (answers (handle_account a m).1 ≡ []) × ((handle_account a m).0.pending_query ≡ none)
unfolding handle_account
idle_step a (start_account_query _ _) h e = absurd h
idle_step a (start_account_bill _ _) h e = absurd h
idle_step a (card_query_reply op_id k x) h e = ground arith
idle_step a m h e = ground arith

pub idle_silent :
    (a : AccountActor) (ms : List AccountMsg)
    → All BeginsNone ms
    → a.pending_query ≡ none
    → (answers (run_account a ms).1 ≡ []) × ((run_account a ms).0.pending_query ≡ none)
unfolding run_account
idle_silent a [] h e = (refl, e)
idle_silent a (m ∷ ms) h e =
    let (silent, idle) = idle_step a m h.0 e in
    let (rest, end) = idle_silent (handle_account a m).0 ms h.1 idle in
    (answers-append (handle_account a m).1 _ ∙ ap₂ ◌++◌ silent rest, end)

-- The query `p` after these replies.
abbrev pub advanced : AccountPendingQuery → List (ℕ × F32) → AccountPendingQuery
advanced p replies = record p {
  remaining = p.remaining - length replies;
  per_card_spent = p.per_card_spent ++ replies;
}

-- What a message does to a query `p` that waits for at least one more reply.
abbrev pub Continues : AccountActor → AccountPendingQuery → AccountMsg → Type 0
Continues a p m =
    (answers (handle_account a m).1 ≡ [])
    × ((handle_account a m).0.account_id ≡ a.account_id)
    × ((handle_account a m).0.pending_query ≡ some (advanced p (replies_to p.op_id (m ∷ []))))

pub waiting_step :
    (a : AccountActor) (p : AccountPendingQuery) (m : AccountMsg)
    → BeginsNone m
    → a.pending_query ≡ some p
    → length (replies_to p.op_id (m ∷ [])) < p.remaining
    → Continues a p m
unfolding handle_account
waiting_step a p (start_account_query _ _) h e more = absurd h
waiting_step a p (start_account_bill _ _) h e more = absurd h
waiting_step a p (card_query_reply op_id k x) h e more = ground (arith, append-nil p.per_card_spent)
waiting_step a p m h e more = ground (arith, append-nil p.per_card_spent)

-- The answer to the query `p` of the account `account_id` with these parts.
abbrev pub answer_to : AccountPendingQuery → ℕ → List (ℕ × F32) → QueryResult
answer_to p account_id spent = record {
  op_id = p.op_id;
  account_id = account_id;
  total_spent = fsum (amounts spent);
  per_card_spent = spent;
}

-- What the account consumes once the query `p` is answered.
abbrev pub consumed_after : AccountPendingQuery → F32 → F32
consumed_after p consumed = if p.billing then pos_zero else consumed

pub last_step :
    (a : AccountActor) (p : AccountPendingQuery) (m : AccountMsg)
    → BeginsNone m
    → a.pending_query ≡ some p
    → 0 < p.remaining
    → p.remaining ≡ length (replies_to p.op_id (m ∷ []))
    → (answers (handle_account a m).1
        ≡ answer_to p a.account_id (p.per_card_spent ++ replies_to p.op_id (m ∷ [])) ∷ [])
      × ((handle_account a m).0.pending_query ≡ none)
      × ((handle_account a m).0.account_consumed ≡ consumed_after p a.account_consumed)
unfolding handle_account
last_step a p (start_account_query _ _) h e pos_ last = absurd h
last_step a p (start_account_bill _ _) h e pos_ last = absurd h
last_step a p (card_query_reply op_id k x) h e pos_ last = ground arith
last_step a p m h e pos_ last = absurd (omega arith)

pub replies_to-cons :
    (k : ℕ) (m : AccountMsg) (ms : List AccountMsg)
    → replies_to k (m ∷ ms) ≡ replies_to k (m ∷ []) ++ replies_to k ms
replies_to-cons k (card_query_reply op_id card_id x) ms = ground arith
replies_to-cons k (start_account_bill _ _) ms = refl
replies_to-cons k m ms = refl

pub replies_to-length :
    (k : ℕ) (m : AccountMsg) (ms : List AccountMsg)
    → length (replies_to k (m ∷ ms)) ≡ length (replies_to k (m ∷ [])) + length (replies_to k ms)
replies_to-length k m ms =
    ap length (replies_to-cons k m ms) ∙ length-append (replies_to k (m ∷ [])) (replies_to k ms)

pub nil_of_length {ℓ} : {A : Type ℓ} (xs : List A) → length xs ≡ 0 → xs ≡ []
nil_of_length [] h = refl
nil_of_length (x ∷ xs) h = absurd (omega (arith, h))
