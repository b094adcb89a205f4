-- ===== src/Network/Connection/Active.antt =====
-- The map of handlers of common/src/network/active_helpers.rs.
use ypf_fleet_fuel_distribut.Prelude.{
  ℕ, suc, ◌≤◌, ◌<◌, ◌≡◌, ◌∙◌, refl, ap, sym, inl, inr, Bool-cases, true, none, some, [], ◌∷◌, ltb,
  if◌then◌else◌, length, All, arith,
}
use ypf_fleet_fuel_distribut.Domain.{SocketAddr}
use ypf_fleet_fuel_distribut.Nodes.Effects.{same_addr}
use ypf_fleet_fuel_distribut.Network.Connection.{
  Handler, Active, find_handler, insert_handler, remove_handler, least_recent,
  remove_last_recently_used, add_handler_from,
}

pub same_addr_self : (a : SocketAddr) → same_addr a a ≡ true
same_addr_self (SocketAddr.v4 a b c d p) = ground arith
same_addr_self (SocketAddr.v6 ip p) = ground arith

pub same_addr_eq : (a b : SocketAddr) → same_addr a b ≡ true → a ≡ b
same_addr_eq (SocketAddr.v4 a b c d p) (SocketAddr.v4 a' b' c' d' p') h = ground arith
same_addr_eq (SocketAddr.v6 ip p) (SocketAddr.v6 ip' p') h = ground arith
same_addr_eq (SocketAddr.v4 a b c d p) (SocketAddr.v6 ip p') h = absurd (cc)
same_addr_eq (SocketAddr.v6 ip p) (SocketAddr.v4 a b c d p') h = absurd (cc)

pub find-insert_handler :
    (handler : Handler) (active : Active)
    → find_handler handler.address (insert_handler handler active) ≡ some handler
unfolding find_handler insert_handler
find-insert_handler handler [] = rw (same_addr_self handler.address) refl
find-insert_handler handler (h ∷ active) =
    ground (arith, same_addr_self handler.address, find-insert_handler handler active)

length-insert_handler :
    (handler : Handler) (active : Active)
    → length (insert_handler handler active) ≤ suc (length active)
unfolding insert_handler
length-insert_handler handler [] = omega arith
length-insert_handler handler (h ∷ active) = ground (arith, length-insert_handler handler active)

length-remove_handler :
    (h : Handler) (active : Active)
    → find_handler h.address active ≡ some h
    → suc (length (remove_handler h.address active)) ≡ length active
unfolding find_handler remove_handler
length-remove_handler h [] found = absurd (cc)
length-remove_handler h (g ∷ active) found = ground (arith, length-remove_handler h active)

-- No address has two handlers.
abbrev pub IsActive : Active → Type 0
IsActive [] = Unit {0}
IsActive (h ∷ active) = (find_handler h.address active ≡ none) × IsActive active

-- The least of `h` and the handlers of a list is not used later than any of them.
least_recent-le :
    (h : Handler) (active : Active)
    → ((least_recent h active).last_used ≤ h.last_used)
      × All (λ g. (least_recent h active).last_used ≤ g.last_used) active
unfolding least_recent
least_recent-le h [] = (omega arith, tt)
least_recent-le h (g ∷ active) =
    let x = if ltb g.last_used h.last_used then g else h in
    let (below, all) = least_recent-le x active in
    (ground (arith, below), (ground (arith, below), all))

least_recent_found :
    (whole : Active) (h : Handler) (active : Active)
    → find_handler h.address whole ≡ some h
    → All (λ g. find_handler g.address whole ≡ some g) active
    → find_handler (least_recent h active).address whole ≡ some (least_recent h active)
unfolding least_recent
least_recent_found whole h [] found all = found
least_recent_found whole h (g ∷ active) found all =
    least_recent_found whole (if ltb g.last_used h.last_used then g else h) active
      (ground (arith, found, all.0)) all.1

still_found :
    (h : Handler) (rest active : Active)
    → find_handler h.address rest ≡ none
    → All (λ g. find_handler g.address rest ≡ some g) active
    → All (λ g. find_handler g.address (h ∷ rest) ≡ some g) active
unfolding find_handler
still_found h rest [] new all = tt
still_found h rest (g ∷ active) new all = (
  elim (Bool-cases (same_addr g.address h.address)) [
    | inl same ↦
        let taken = ap (λ a. find_handler a rest) (same_addr_eq g.address h.address same) in
        absurd (ground (arith, sym all.0 ∙ taken ∙ new))
    | inr other ↦ rw other all.0
  ],
  still_found h rest active new all.1,
)

head_found : (h : Handler) (active : Active) → find_handler h.address (h ∷ active) ≡ some h
unfolding find_handler
head_found h active = rw (same_addr_self h.address) refl

handlers_found :
    (active : Active) → IsActive active → All (λ g. find_handler g.address active ≡ some g) active
handlers_found [] distinct = tt
handlers_found (h ∷ active) distinct =
    (head_found h active, still_found h active active distinct.0 (handlers_found active distinct.1))

pub find-remove_handler :
    (a b : SocketAddr) (active : Active)
    → IsActive active
    → find_handler a (remove_handler b active)
      ≡ (if same_addr a b then none else find_handler a active)
unfolding find_handler remove_handler
find-remove_handler a b [] distinct = ground arith
find-remove_handler a b (h ∷ active) distinct = ground (
  arith,
  same_addr_eq a b,
  same_addr_eq b h.address,
  find-remove_handler a b active distinct.1,
  distinct.0,
)

-- Of a map that is not empty the eviction takes out one handler, which was not used later than any
-- other; every other handler stays.
pub eviction_takes_least_recent :
    (h : Handler) (active : Active)
    → IsActive (h ∷ active)
    → (victim : Handler) × (find_handler victim.address (h ∷ active) ≡ some victim)
      × All (λ g. victim.last_used ≤ g.last_used) (h ∷ active)
      × (suc (length (remove_last_recently_used (h ∷ active))) ≡ length (h ∷ active))
      × ((a : SocketAddr)
          → find_handler a (remove_last_recently_used (h ∷ active))
            ≡ (if same_addr a victim.address then none else find_handler a (h ∷ active)))
unfolding remove_last_recently_used
eviction_takes_least_recent h active distinct =
    let whole = h ∷ active in
    let victim = least_recent h active in
    let (first, others) = handlers_found whole distinct in
    let found = least_recent_found whole h active first others in
    let (below, all) = least_recent-le h active in
    (
      victim,
      found,
      (below, all),
      length-remove_handler victim whole found,
      λ a. find-remove_handler a victim.address whole distinct,
    )

-- A new handler never makes the map larger than its maximum, if that is at least one.
pub add_handler_from-bound :
    (active : Active) (handler : Handler) (max_conns : ℕ)
    → IsActive active
    → 0 < max_conns
    → length active ≤ max_conns
    → length (add_handler_from active handler max_conns) ≤ max_conns
unfolding add_handler_from
add_handler_from-bound [] handler max_conns distinct positive small =
    ground (arith, length-insert_handler handler [])
add_handler_from-bound (h ∷ active) handler max_conns distinct positive small =
    let (_, _, _, fewer, _) = eviction_takes_least_recent h active distinct in
    ground (
      arith,
      fewer,
      length-insert_handler handler (remove_last_recently_used (h ∷ active)),
      length-insert_handler handler (h ∷ active),
    )
