-- ===== src/Clients/NodeClient/Replays.antt =====
-- The replay of queued charges at client/src/node_client/node_client.rs.
use ypf_fleet_fuel_distribut.Prelude.{
  ◌⊎◌, ℕ, ◌+◌, ◌≡◌, refl, ap, ◌∙◌, inl, inr, Bool-cases, List-cases, Bool, true, List, [], ◌∷◌,
  ◌++◌, arith,
}
use mathlib.Core.List.{map}
use ypf_fleet_fuel_distribut.Domain.{SocketAddr, Message, Operation}
use ypf_fleet_fuel_distribut.Clients.NodeClient.{QueuedCharge, NodeClient, ClientEffect, charge_of}
use ypf_fleet_fuel_distribut.Clients.NodeClient.Handlers.{
  next_id, replay_charge, replay_queue, flush_offline_queue,
}
use ypf_fleet_fuel_distribut.Clients.NodeClient.Effects.{
  deliveries, answers, deliveries-append, answers-append,
}

-- The third list has the elements of the two others, each list in its order.
pub data Merge {ℓ} {A : Type ℓ} : List A → List A → List A → Type ℓ where
  nil : Merge [] [] []
  left : (x : A) {xs ys zs : List A} → Merge xs ys zs → Merge (x ∷ xs) ys (x ∷ zs)
  right : (y : A) {xs ys zs : List A} → Merge xs ys zs → Merge xs (y ∷ ys) (y ∷ zs)

Merge-nothing {ℓ} : {A : Type ℓ} (xs : List A) → Merge [] xs xs
Merge-nothing [] = Merge.nil
Merge-nothing (x ∷ xs) = Merge.right x (Merge-nothing xs)

-- The operations of the requests that were sent.
abbrev pub requested : List (Message × SocketAddr) → List Operation
requested [] = []
requested ((Message.request id op addr, target) ∷ sends) = op ∷ requested sends
requested (_ ∷ sends) = requested sends

requested-append :
    (xs ys : List (Message × SocketAddr)) → requested (xs ++ ys) ≡ requested xs ++ requested ys
requested-append [] ys = refl
requested-append ((Message.request id op addr, target) ∷ xs) ys =
    ap (◌∷◌ op) (requested-append xs ys)
requested-append ((Message.response _ _, target) ∷ xs) ys = requested-append xs ys
requested-append ((Message.log _ _, target) ∷ xs) ys = requested-append xs ys
requested-append ((Message.ack _, target) ∷ xs) ys = requested-append xs ys
requested-append ((Message.election _ _, target) ∷ xs) ys = requested-append xs ys
requested-append ((Message.election_ok _, target) ∷ xs) ys = requested-append xs ys
requested-append ((Message.coordinator _ _, target) ∷ xs) ys = requested-append xs ys
requested-append ((Message.join _, target) ∷ xs) ys = requested-append xs ys
requested-append ((Message.cluster_view _ _ _, target) ∷ xs) ys = requested-append xs ys
requested-append ((Message.cluster_update _, target) ∷ xs) ys = requested-append xs ys
requested-append ((Message.role_query _, target) ∷ xs) ys = requested-append xs ys
requested-append ((Message.role_response _ _, target) ∷ xs) ys = requested-append xs ys

abbrev pub replayed : QueuedCharge → Operation
replayed queued = charge_of queued true

-- A charge is sent once, or is still pending.
one_replay :
    (accepts : ℕ → Bool) (addr : SocketAddr) (k id : ℕ) (queued : QueuedCharge)
    (nodes : List SocketAddr)
    → let one = replay_charge accepts addr k id queued nodes in
      ((requested (deliveries one.sends) ≡ replayed queued ∷ []) × (one.still_pending ≡ []))
      ⊎ ((requested (deliveries one.sends) ≡ []) × (one.still_pending ≡ queued ∷ []))
unfolding replay_charge
one_replay accepts addr k id queued [] = inr (refl, refl)
one_replay accepts addr k id queued (target ∷ targets) = elim (Bool-cases (accepts k)) [
  | inl sent ↦ rw sent (inl (refl, refl))
  | inr missed ↦ rw missed (one_replay accepts addr (k + 1) (next_id id) queued targets)
]

abbrev Conserves : List QueuedCharge → List ClientEffect → List QueuedCharge → Type 0
Conserves queue sends pending =
    (sent : List QueuedCharge) × Merge sent pending queue
    × (requested (deliveries sends) ≡ map replayed sent)

queue_conserved :
    (accepts : ℕ → Bool) (addr : SocketAddr) (nodes : List SocketAddr) (k id : ℕ)
    (queue : List QueuedCharge)
    → let replay = replay_queue accepts addr nodes k id queue in
      Conserves queue replay.sends replay.still_pending
unfolding replay_queue
queue_conserved accepts addr nodes k id [] = ([], Merge.nil, refl)
queue_conserved accepts addr nodes k id (queued ∷ queue) =
    let one = replay_charge accepts addr k id queued nodes in
    let rest = replay_queue accepts addr nodes one.attempts one.next_replay_req_id queue in
    let (sent, merge, ops) =
      queue_conserved accepts addr nodes one.attempts one.next_replay_req_id queue in
    let split =
      ap requested (deliveries-append one.sends rest.sends)
      ∙ requested-append (deliveries one.sends) (deliveries rest.sends) in
    elim (one_replay accepts addr k id queued nodes) [
      | inl (is_sent, gone) ↦
          rw gone (queued ∷ sent, Merge.left queued merge, split ∙ rw (is_sent, ops) refl)
      | inr (unsent, waits) ↦
          rw waits (sent, Merge.right queued merge, split ∙ rw (unsent, ops) refl)
    ]

unanswered :
    (accepts : ℕ → Bool) (addr : SocketAddr) (k id : ℕ) (queued : QueuedCharge)
    (nodes : List SocketAddr)
    → answers (replay_charge accepts addr k id queued nodes).sends ≡ []
unfolding replay_charge
unanswered accepts addr k id queued [] = refl
unanswered accepts addr k id queued (target ∷ targets) =
    ground (arith, unanswered accepts addr (k + 1) (next_id id) queued targets)

queue_unanswered :
    (accepts : ℕ → Bool) (addr : SocketAddr) (nodes : List SocketAddr) (k id : ℕ)
    (queue : List QueuedCharge)
    → answers (replay_queue accepts addr nodes k id queue).sends ≡ []
unfolding replay_queue
queue_unanswered accepts addr nodes k id [] = refl
queue_unanswered accepts addr nodes k id (queued ∷ queue) =
    let one = replay_charge accepts addr k id queued nodes in
    let rest = replay_queue accepts addr nodes one.attempts one.next_replay_req_id queue in
    answers-append one.sends rest.sends
    ∙ rw
        (
          unanswered accepts addr k id queued nodes,
          queue_unanswered accepts addr nodes one.attempts one.next_replay_req_id queue,
        )
        refl

idle_flush :
    (accepts : ℕ → Bool) (c : NodeClient)
    → (c.offline_queue ≡ []) ⊎ (c.known_nodes ≡ [])
    → flush_offline_queue accepts c ≡ (c, [])
unfolding flush_offline_queue
idle_flush accepts c (inl empty) = ground (arith, empty)
idle_flush accepts c (inr unknown) = ground (arith, unknown)

pub busy_flush :
    (accepts : ℕ → Bool) (c : NodeClient) (queued : QueuedCharge) (queue : List QueuedCharge)
    (node : SocketAddr) (nodes : List SocketAddr)
    → c.offline_queue ≡ queued ∷ queue
    → c.known_nodes ≡ node ∷ nodes
    → let replay =
        replay_queue accepts c.bind_addr c.known_nodes 0 c.next_replay_req_id c.offline_queue in
      flush_offline_queue accepts c ≡ (
        record c {
          offline_queue = replay.still_pending;
          next_replay_req_id = replay.next_replay_req_id;
        },
        replay.sends,
      )
unfolding flush_offline_queue
busy_flush accepts c queued queue node nodes waits known = ground (arith, waits, known)

-- Whatever sends fail, a flush splits the queue in two: each charge of the one part has been sent to
-- the cluster once, as a charge of an offline station, in the queue's order, and the other part is the
-- new queue, in the queue's order. The station gets no result, and the tracked ids stay.
pub flush_conserves_charges :
    (accepts : ℕ → Bool) (c : NodeClient)
    → let flushed = flush_offline_queue accepts c in
      (sent : List QueuedCharge) × Merge sent flushed.0.offline_queue c.offline_queue
      × (requested (deliveries flushed.1) ≡ map replayed sent)
      × (answers flushed.1 ≡ [])
      × (flushed.0.active_online_requests ≡ c.active_online_requests)
flush_conserves_charges accepts c =
    let addr = c.bind_addr in
    let id = c.next_replay_req_id in
    let queue = c.offline_queue in
    elim (List-cases queue) [
      | inl empty ↦
          rw (idle_flush accepts c (inl empty)) ([], Merge-nothing queue, refl, refl, refl)
      | inr (queued, rest, waits) ↦ elim (List-cases c.known_nodes) [
        | inl unknown ↦
            rw (idle_flush accepts c (inr unknown)) ([], Merge-nothing queue, refl, refl, refl)
        | inr (node, nodes, known) ↦
            let (sent, merge, ops) = queue_conserved accepts addr c.known_nodes 0 id queue in
            rw (busy_flush accepts c queued rest node nodes waits known)
              (sent, merge, ops, queue_unanswered accepts addr c.known_nodes 0 id queue, refl)
      ]
    ]
