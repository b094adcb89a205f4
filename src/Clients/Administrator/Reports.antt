-- ===== src/Clients/Administrator/Reports.antt =====
-- What the administrator of client/src/administrator/ reports.
use mathlib.Core.List.{Permᴰ}
use mathlib.Core.List.Permᴰ as Permutations
use ypf_fleet_fuel_distribut.Prelude.{
  ℕ, zero, suc, ◌+◌, ◌%◌, ◌^◌, ◌≤◌, ◌≡◌, ◌∙◌, refl, true, false, Option, some, List, [], ◌∷◌, ◌++◌,
  leb, ◌==◌, All, Bool-cases, inl, inr, arith,
}
use ypf_fleet_fuel_distribut.Float.{F32}
use ypf_fleet_fuel_distribut.Domain.{Message, Operation, OperationResult, AccountQueryResult}
use ypf_fleet_fuel_distribut.Text.{Text, trim, trim_start, trim_end}
use ypf_fleet_fuel_distribut.Clients.Administrator.{
  AdminCommand, Administrator, build_operation, insert_by_card, sort_by_card, Report,
  handle_op_result,
}
use ypf_fleet_fuel_distribut.Clients.Administrator.Session.{
  Received, message, failure, after_result, await_response, handle_command, LineRead, read, ends,
  reads_on, handle_admin_line, run_session,
}

-- A message that is no response to request `id`.
abbrev pub IsOther : (id : ℕ) → Received → Type 0
IsOther id (message (Message.response r result)) = (r == id) ≡ false
IsOther id (message other) = Unit {0}
IsOther id failure = ⊥

skip_other :
    (id : ℕ) (m : Received) (rest : List Received)
    → IsOther id m
    → await_response id (m ∷ rest) ≡ await_response id rest
unfolding await_response
skip_other id (message (Message.response r result)) rest h = ground (arith, h)
skip_other id (message (Message.request _ _ _)) rest h = refl
skip_other id (message (Message.log _ _)) rest h = refl
skip_other id (message (Message.ack _)) rest h = refl
skip_other id (message (Message.election _ _)) rest h = refl
skip_other id (message (Message.election_ok _)) rest h = refl
skip_other id (message (Message.coordinator _ _)) rest h = refl
skip_other id (message (Message.join _)) rest h = refl
skip_other id (message (Message.cluster_view _ _ _)) rest h = refl
skip_other id (message (Message.cluster_update _)) rest h = refl
skip_other id (message (Message.role_query _)) rest h = refl
skip_other id (message (Message.role_response _ _)) rest h = refl
skip_other id failure rest h = absurd h

own_first :
    (id : ℕ) (rest : List Received) (result : OperationResult)
    → await_response id (message (Message.response id result) ∷ rest)
      ≡ after_result (handle_op_result result) rest
unfolding await_response
own_first id rest result = ground arith

own_response :
    (id : ℕ) (others rest : List Received) (result : OperationResult)
    → All (IsOther id) others
    → await_response id (others ++ message (Message.response id result) ∷ rest)
      ≡ after_result (handle_op_result result) rest
own_response id [] rest result h = own_first id rest result
own_response id (m ∷ others) rest result h =
    skip_other id m (others ++ message (Message.response id result) ∷ rest) h.0
    ∙ own_response id others rest result h.1

-- A command whose request is sent is one request under the next id, and it ends with the report of the
-- first response to this id; responses to other ids and other messages before it are passed over.
pub command_reports_own_result :
    (admin : Administrator) (cmd : AdminCommand) (op : Operation) (others rest : List Received)
    (result : OperationResult)
    → build_operation admin cmd ≡ some op
    → All (IsOther admin.next_req_id) others
    → handle_command true admin cmd
        (others ++ message (Message.response admin.next_req_id result) ∷ rest)
      ≡ record {
        admin = record admin { next_req_id = (admin.next_req_id + 1) % 2 ^ 32 };
        sent = Message.request admin.next_req_id op admin.bind_addr ∷ [];
        waiting = after_result (handle_op_result result) rest;
      }
unfolding handle_command
command_reports_own_result admin cmd op others rest result built h =
    ground (arith, built, own_response admin.next_req_id others rest result h)

abbrev pub end_of_input : ℕ → List LineRead
end_of_input zero = []
end_of_input (suc n) = read [] true ∷ end_of_input n

-- At the end of the input every read gives an empty line, and the session reads on, however often.
pub end_of_input_read_on :
    (read_amount : Text → Option F32) (admin : Administrator) (n : ℕ) (inbox : List Received)
    → run_session read_amount admin (end_of_input n) inbox ≡ ends [] (reads_on admin)
unfolding run_session handle_admin_line trim trim_start trim_end
end_of_input_read_on read_amount admin zero inbox = refl
end_of_input_read_on read_amount admin (suc n) inbox =
    end_of_input_read_on read_amount admin n inbox

-- The cards are in the order of their ids.
abbrev pub IsSorted : List (ℕ × F32) → Type 0
IsSorted [] = Unit {0}
IsSorted (e ∷ l) = All (λ d. e.0 ≤ d.0) l × IsSorted l

All-insert_by_card :
    (k : ℕ) (e : ℕ × F32) (l : List (ℕ × F32))
    → k ≤ e.0
    → All (λ d. k ≤ d.0) l
    → All (λ d. k ≤ d.0) (insert_by_card e l)
unfolding insert_by_card
All-insert_by_card k e [] small h = (small, tt)
All-insert_by_card k e (d ∷ l) small h = ground (arith, All-insert_by_card k e l small h.1)

All-le_trans : (j k : ℕ) (l : List (ℕ × F32)) → j ≤ k → All (λ d. k ≤ d.0) l → All (λ d. j ≤ d.0) l
All-le_trans j k [] small h = tt
All-le_trans j k (d ∷ l) small h = (omega (arith, h.0), All-le_trans j k l small h.1)

insert_by_card-IsSorted :
    (e : ℕ × F32) (l : List (ℕ × F32)) → IsSorted l → IsSorted (insert_by_card e l)
unfolding insert_by_card
insert_by_card-IsSorted e [] h = (tt, tt)
insert_by_card-IsSorted e (d ∷ l) h = elim (Bool-cases (leb e.0 d.0)) [
  | inl before ↦
      rw before ((ground (arith, before), All-le_trans e.0 d.0 l (ground (arith, before)) h.0), h)
  | inr behind ↦
      rw behind
        (All-insert_by_card d.0 e l (ground (arith, behind)) h.0, insert_by_card-IsSorted e l h.1)
]

insert_by_card-Perm : (e : ℕ × F32) (l : List (ℕ × F32)) → Permᴰ (e ∷ l) (insert_by_card e l)
unfolding insert_by_card
insert_by_card-Perm e [] = Permutations.refl (e ∷ [])
insert_by_card-Perm e (d ∷ l) = elim (Bool-cases (leb e.0 d.0)) [
  | inl before ↦ rw before (Permutations.refl (e ∷ d ∷ l))
  | inr behind ↦
      rw behind (Permᴰ.trans (Permᴰ.swap refl refl) (Permᴰ.cons refl (insert_by_card-Perm e l)))
]

sort_by_card-IsSorted : (l : List (ℕ × F32)) → IsSorted (sort_by_card l)
unfolding sort_by_card
sort_by_card-IsSorted [] = tt
sort_by_card-IsSorted (e ∷ l) = insert_by_card-IsSorted e (sort_by_card l) (sort_by_card-IsSorted l)

sort_by_card-Perm : (l : List (ℕ × F32)) → Permᴰ l (sort_by_card l)
unfolding sort_by_card
sort_by_card-Perm [] = Permutations.refl []
sort_by_card-Perm (e ∷ l) =
    Permᴰ.trans (Permᴰ.cons refl (sort_by_card-Perm l)) (insert_by_card-Perm e (sort_by_card l))

-- The report of an account query shows the account and the total of the result, and its cards: the
-- same ones, each as often, in the order of their ids.
pub account_report-IsSorted :
    (result : AccountQueryResult)
    → (cards : List (ℕ × F32)) × (handle_op_result (OperationResult.account_query result)
        ≡ some (Report.account result.account_id result.total_spent cards))
      × IsSorted cards
      × Permᴰ result.per_card_spent cards
unfolding handle_op_result
account_report-IsSorted result =
    let cards = sort_by_card result.per_card_spent in
    (
      cards,
      refl,
      sort_by_card-IsSorted result.per_card_spent,
      sort_by_card-Perm result.per_card_spent,
    )
