-- ===== src/Actors/Router/Snapshots.antt =====
-- How the router puts a database snapshot together: server/src/node/actors/actor_router.rs.
use ypf_fleet_fuel_distribut.Actors.Messages.{
  RouterInternalMsg, Effect, to_node, operation_result, account_snapshot_collected,
  card_snapshot_collected,
}
use ypf_fleet_fuel_distribut.Prelude.{
  ℕ, ◌+◌, ◌≡◌, refl, sym, ap, ◌∙◌, true, false, Option, none, some, List, [], ◌∷◌, ◌++◌, append-nil,
  append_assoc, arith, length, length-append, lookup, insert, erase, lookup-insert_self,
}
use ypf_fleet_fuel_distribut.Domain.{AccountSnapshot, CardSnapshot, Operation}
use ypf_fleet_fuel_distribut.Actors.Router.Replies.{
  ActorRouter, PendingDatabaseSnapshot, handle_internal, snapshot_result, is_complete,
}

-- A fragment of the database: the answer of an account, or of a card.
pub data Fragment : Type 0 where
  of_account : AccountSnapshot → Fragment
  of_card : CardSnapshot → Fragment

abbrev pub account_parts : List Fragment → List AccountSnapshot
account_parts [] = []
account_parts (of_account a ∷ fs) = a ∷ account_parts fs
account_parts (of_card c ∷ fs) = account_parts fs

abbrev pub card_parts : List Fragment → List CardSnapshot
card_parts [] = []
card_parts (of_account a ∷ fs) = card_parts fs
card_parts (of_card c ∷ fs) = c ∷ card_parts fs

-- What an account or a card sends to the router for the operation.
abbrev pub fragment_msg : ℕ → Fragment → RouterInternalMsg
fragment_msg op_id (of_account a) = account_snapshot_collected op_id a
fragment_msg op_id (of_card c) = card_snapshot_collected op_id c

-- The router takes the messages one after the other. `none` is a panic.
unfoldable pub run_internal :
    ActorRouter → List RouterInternalMsg → Option (ActorRouter × List Effect)
run_internal r [] = some (r, [])
run_internal r (m ∷ ms) = elim (handle_internal r m) [
  | none ↦ none
  | some (r', es) ↦ elim (run_internal r' ms) [
    | none ↦ none
    | some (r'', rest) ↦ some (r'', es ++ rest)
  ]
]

-- The pending snapshot with one more fragment.
abbrev with_fragment : PendingDatabaseSnapshot → Fragment → PendingDatabaseSnapshot
with_fragment p (of_account a) = record p { accounts = p.accounts ++ a ∷ [] }
with_fragment p (of_card c) = record p { cards = p.cards ++ c ∷ [] }

-- The fragments `fs` are as many as the pending snapshot still wants.
abbrev pub Awaits : PendingDatabaseSnapshot → List Fragment → Type 0
Awaits p fs =
    (p.expected_accounts ≡ length p.accounts + length (account_parts fs))
    × (p.expected_cards ≡ length p.cards + length (card_parts fs))

abbrev pub with_all : PendingDatabaseSnapshot → List Fragment → PendingDatabaseSnapshot
with_all p fs = record p {
  accounts = p.accounts ++ account_parts fs;
  cards = p.cards ++ card_parts fs;
}

abbrev stored : ActorRouter → ℕ → PendingDatabaseSnapshot → ActorRouter
stored r op_id p = record r { pending_db_snapshots = insert op_id p r.pending_db_snapshots }

-- One fragment, of several that are awaited and of the last.
fragment_waits :
    (r : ActorRouter) (op_id : ℕ) (p : PendingDatabaseSnapshot) (f : Fragment)
    → lookup op_id r.pending_db_snapshots ≡ some p
    → is_complete (with_fragment p f) ≡ false
    → handle_internal r (fragment_msg op_id f) ≡ some (stored r op_id (with_fragment p f), [])
unfolding handle_internal
fragment_waits r op_id p (of_account a) e more =
    ground (arith, lookup-insert_self op_id (with_fragment p (of_account a)) r.pending_db_snapshots)
fragment_waits r op_id p (of_card c) e more =
    ground (arith, lookup-insert_self op_id (with_fragment p (of_card c)) r.pending_db_snapshots)

abbrev pub finished : ActorRouter → ℕ → PendingDatabaseSnapshot → ActorRouter
finished r op_id p = record r {
  pending_db_snapshots = erase op_id (insert op_id p r.pending_db_snapshots);
}

fragment_completes :
    (r : ActorRouter) (op_id : ℕ) (p : PendingDatabaseSnapshot) (op : Operation) (f : Fragment)
    → lookup op_id r.operations ≡ some op
    → lookup op_id r.pending_db_snapshots ≡ some p
    → is_complete (with_fragment p f) ≡ true
    → handle_internal r (fragment_msg op_id f)
      ≡ some (
        finished r op_id (with_fragment p f),
        to_node (operation_result op_id op (snapshot_result (with_fragment p f)) true none) ∷ [],
      )
unfolding handle_internal
fragment_completes r op_id p op (of_account a) known e all =
    ground (arith, lookup-insert_self op_id (with_fragment p (of_account a)) r.pending_db_snapshots)
fragment_completes r op_id p op (of_card c) known e all =
    ground (arith, lookup-insert_self op_id (with_fragment p (of_card c)) r.pending_db_snapshots)

last_complete :
    (p : PendingDatabaseSnapshot) (f : Fragment)
    → Awaits p (f ∷ [])
    → is_complete (with_fragment p f) ≡ true
last_complete p (of_account a) t = ground (arith, length-append p.accounts (a ∷ []))
last_complete p (of_card c) t = ground (arith, length-append p.cards (c ∷ []))

more_awaited :
    (p : PendingDatabaseSnapshot) (f g : Fragment) (fs : List Fragment)
    → Awaits p (f ∷ g ∷ fs)
    → is_complete (with_fragment p f) ≡ false
more_awaited p (of_account a) (of_account b) fs t =
    ground (arith, length-append p.accounts (a ∷ []))
more_awaited p (of_account a) (of_card c) fs t = ground (arith, length-append p.accounts (a ∷ []))
more_awaited p (of_card c) (of_account b) fs t = ground (arith, length-append p.cards (c ∷ []))
more_awaited p (of_card c) (of_card d) fs t = ground (arith, length-append p.cards (c ∷ []))

rest_awaited :
    (p : PendingDatabaseSnapshot) (f : Fragment) (fs : List Fragment)
    → Awaits p (f ∷ fs)
    → Awaits (with_fragment p f) fs
rest_awaited p (of_account a) fs t = omega (arith, length-append p.accounts (a ∷ []))
rest_awaited p (of_card c) fs t = omega (arith, length-append p.cards (c ∷ []))

with_all-cons :
    (p : PendingDatabaseSnapshot) (f : Fragment) (fs : List Fragment)
    → with_all (with_fragment p f) fs ≡ with_all p (f ∷ fs)
with_all-cons p (of_account a) fs =
    ap (λ l. record p { accounts = l; cards = p.cards ++ card_parts fs })
      (append_assoc p.accounts (a ∷ []) (account_parts fs))
with_all-cons p (of_card c) fs =
    ap (λ l. record p { accounts = p.accounts ++ account_parts fs; cards = l })
      (append_assoc p.cards (c ∷ []) (card_parts fs))

abbrev pub fragment_msgs : ℕ → List Fragment → List RouterInternalMsg
fragment_msgs op_id [] = []
fragment_msgs op_id (f ∷ fs) = fragment_msg op_id f ∷ fragment_msgs op_id fs

run_internal_step :
    (r r' r'' : ActorRouter) (m : RouterInternalMsg) (ms : List RouterInternalMsg)
    (es rest : List Effect)
    → handle_internal r m ≡ some (r', es)
    → run_internal r' ms ≡ some (r'', rest)
    → run_internal r (m ∷ ms) ≡ some (r'', es ++ rest)
unfolding run_internal
run_internal_step r r' r'' m ms es rest h k = rw (h, run_internal) (rw k)

run_internal_none : (r : ActorRouter) → run_internal r [] ≡ some (r, [])
unfolding run_internal
run_internal_none r = refl

with_one : (p : PendingDatabaseSnapshot) (f : Fragment) → with_fragment p f ≡ with_all p (f ∷ [])
with_one p (of_account a) =
    ap (λ l. record p { accounts = p.accounts ++ a ∷ []; cards = l }) (sym (append-nil p.cards))
with_one p (of_card c) =
    ap (λ l. record p { accounts = l; cards = p.cards ++ c ∷ [] }) (sym (append-nil p.accounts))

abbrev snapshot_event : ℕ → Operation → PendingDatabaseSnapshot → Effect
snapshot_event op_id op p = to_node (operation_result op_id op (snapshot_result p) true none)

-- Once as many fragments as the router waits for have arrived, in whatever order those of accounts
-- and cards are mixed, it has sent exactly one event: the snapshot with all of them, each kind in the
-- order of arrival, for the stored operation. It does not panic, and forgets no operation.
pub snapshot_collected :
    (r : ActorRouter) (op_id : ℕ) (p : PendingDatabaseSnapshot) (op : Operation) (f : Fragment)
    (fs : List Fragment)
    → lookup op_id r.operations ≡ some op
    → lookup op_id r.pending_db_snapshots ≡ some p
    → Awaits p (f ∷ fs)
    → (r' : ActorRouter) × (run_internal r (fragment_msgs op_id (f ∷ fs))
        ≡ some (
          r',
          to_node (operation_result op_id op (snapshot_result (with_all p (f ∷ fs))) true none)
              ∷ [],
        ))
      × (r'.operations ≡ r.operations)
snapshot_collected r op_id p op f [] known e t = (
  finished r op_id (with_fragment p f),
  run_internal_step r _ _ (fragment_msg op_id f) [] _ []
        (fragment_completes r op_id p op f known e (last_complete p f t)) (run_internal_none _)
      ∙ ap
          (λ (q : PendingDatabaseSnapshot).
            some (finished r op_id (with_fragment p f), snapshot_event op_id op q ∷ []))
          (with_one p f),
  refl,
)
snapshot_collected r op_id p op f (g ∷ fs) known e t =
    let q = with_fragment p f in
    let (r', done, same) =
      snapshot_collected (stored r op_id q) op_id q op g fs known
        (lookup-insert_self op_id q r.pending_db_snapshots) (rest_awaited p f (g ∷ fs) t) in
    (
      r',
      run_internal_step r _ _ (fragment_msg op_id f) (fragment_msgs op_id (g ∷ fs)) [] _
            (fragment_waits r op_id p f e (more_awaited p f g fs t)) done
          ∙ ap (λ (v : PendingDatabaseSnapshot). some (r', snapshot_event op_id op v ∷ []))
              (with_all-cons p f (g ∷ fs)),
      same,
    )
