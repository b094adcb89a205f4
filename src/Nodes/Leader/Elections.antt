-- ===== src/Nodes/Leader/Elections.antt =====
-- Elections that a leader starts: server/src/node/leader.rs.
use ypf_fleet_fuel_distribut.Prelude.{ℕ, ◌+◌, ◌<◌, ◌≤◌, ◌≡◌, false, [], arith}
use ypf_fleet_fuel_distribut.Domain.{Message}
use ypf_fleet_fuel_distribut.Nodes.Effects.{send_each}
use ypf_fleet_fuel_distribut.Nodes.Leader.{Leader}
use ypf_fleet_fuel_distribut.Nodes.Leader.Members.{
  higher_than, is_empty, start_election, anounce_coordinator, handle_election_ok,
  handle_election_timeout,
}

-- An election that is started while none is under way asks exactly the members with a higher id, of
-- which there are some. Until two seconds have passed the timeout does nothing; then it announces the
-- leader to all others and ends the election, but not if a member has answered before.
pub election_resolved :
    (l : Leader) (now early late : ℕ)
    → l.election_in_progress ≡ false
    → is_empty (higher_than l.id l.cluster) ≡ false
    → early < now + 2000
    → now + 2000 ≤ late
    → let (asking, asked) = start_election now l in
      (asked ≡ send_each (Message.election l.id l.address) (higher_than l.id l.cluster))
      × (handle_election_timeout early asking ≡ (asking, []))
      × ((handle_election_timeout late asking).1 ≡ anounce_coordinator l)
      × ((handle_election_timeout late asking).0.election_in_progress ≡ false)
      × ((handle_election_timeout late (handle_election_ok asking)).1 ≡ [])
unfolding start_election handle_election_timeout handle_election_ok
election_resolved l now early late idle some_ before after = ground arith
