-- ===== src/Network/Heartbeats/Silence.antt =====
-- When the task of common/src/network/handler/handler.rs gives its peer up.
use ypf_fleet_fuel_distribut.Prelude.{
  ◌⊎◌, ℕ, ◌+◌, ◌≤◌, ◌<◌, ◌≡◌, ◌∙◌, sym, refl, ap, inl, inr, Bool, true, false, List, [], ◌∷◌, All,
  arith,
}
use ypf_fleet_fuel_distribut.Network.Heartbeats.{
  heartbeat_timeout, heartbeat_request, heartbeat_reply, node_message, channel_closed,
  connection_lost, invalid_message, fine, error, Branch, sent, received, not_received,
  heartbeat_due, TaskEvent, TaskState, running, ended, handle_recv_result, take_branch,
  after_branch, run_turn, run_handler,
}

abbrev pub is_reply : Branch → Bool
is_reply (received heartbeat_reply) = true
is_reply _ = false

silent_branch :
    (e : TaskEvent) (b : Branch) (l s : ℕ)
    → e.branch ≡ b
    → is_reply b ≡ false
    → run_turn e (running l) ≡ running s
    → (s ≡ l) × (e.tested_at ≤ l + heartbeat_timeout)
unfolding run_turn take_branch after_branch handle_recv_result
silent_branch e (sent fine) l s at no_reply r = ground (arith, at)
silent_branch e (sent (error channel_closed)) l s at no_reply r = absurd (ground (arith, at))
silent_branch e (sent (error connection_lost)) l s at no_reply r = absurd (ground (arith, at))
silent_branch e (sent (error invalid_message)) l s at no_reply r = absurd (ground (arith, at))
silent_branch e (received heartbeat_request) l s at no_reply r = ground (arith, at)
silent_branch e (received heartbeat_reply) l s at no_reply r = absurd (cc)
silent_branch e (received node_message) l s at no_reply r = ground (arith, at)
silent_branch e (not_received channel_closed) l s at no_reply r = absurd (ground (arith, at))
silent_branch e (not_received connection_lost) l s at no_reply r = absurd (ground (arith, at))
silent_branch e (not_received invalid_message) l s at no_reply r = absurd (ground (arith, at))
silent_branch e heartbeat_due l s at no_reply r = ground (arith, at)

ended_stays : (b : Bool) (events : List TaskEvent) → run_handler (ended b) events ≡ ended b
unfolding run_handler run_turn
ended_stays b [] = refl
ended_stays b (e ∷ events) = ended_stays b events

state_cases : (s : TaskState) → ((t : ℕ) × (s ≡ running t)) ⊎ ((b : Bool) × (s ≡ ended b))
state_cases (running t) = inl (t, refl)
state_cases (ended b) = inr (b, refl)

-- A task that still runs after events among which is no heartbeat reply has tested at each of them, and
-- within ten seconds from when the peer was last seen, and that time is the same afterwards: a peer
-- that has stopped to reply is given up at the first event that is tested later.
pub silent_peer_given_up :
    (events : List TaskEvent) (last_seen s : ℕ)
    → All (λ e. is_reply e.branch ≡ false) events
    → run_handler (running last_seen) events ≡ running s
    → (s ≡ last_seen) × All (λ e. e.tested_at ≤ last_seen + heartbeat_timeout) events
unfolding run_handler
silent_peer_given_up [] l s quiet r = ground (arith, r)
silent_peer_given_up (e ∷ events) l s quiet r = elim (state_cases (run_turn e (running l))) [
  | inl (t, goes_on) ↦
      let (same, in_time) = silent_branch e e.branch l t refl quiet.0 goes_on in
      let (stays, later) = silent_peer_given_up events l s quiet.1 (
        ap (λ u. run_handler (running u) events) (sym same)
        ∙ ap (λ u. run_handler u events) (sym goes_on)
        ∙ r) in
      (stays, (in_time, later))
  | inr (b, ends) ↦
      let stuck = sym (ended_stays b events) ∙ ap (λ u. run_handler u events) (sym ends) ∙ r in
      absurd (ground (arith, stuck))
]

-- A task whose read or whose write of a message fails, or which has sent a message and then finds the
-- timeout over, ends and tells the node that the connection is lost, if the channel is open.
pub loss_reported :
    (e : TaskEvent) (last_seen : ℕ)
    → ((e.branch ≡ sent (error connection_lost))
        ⊎ (e.branch ≡ not_received connection_lost)
        ⊎ ((e.branch ≡ sent fine) × (last_seen + heartbeat_timeout < e.tested_at)))
    → run_turn e (running last_seen) ≡ ended e.is_open
unfolding run_turn take_branch after_branch
loss_reported e last_seen (inl at) = ground (arith, at)
loss_reported e last_seen (inr (inl at)) = ground (arith, at)
loss_reported e last_seen (inr (inr (at, late))) = ground (arith, at, late)

-- A task that cannot write its heartbeat request ends, and tells the node nothing.
pub lost_heartbeat_unreported :
    (e : TaskEvent) (last_seen : ℕ)
    → e.branch ≡ heartbeat_due
    → e.can_write ≡ false
    → run_turn e (running last_seen) ≡ ended false
unfolding run_turn take_branch after_branch
lost_heartbeat_unreported e last_seen at unwritable = ground (arith, at, unwritable)
