-- ===== src/Station/Board.antt =====
-- The abstract view of the pumps of common/src/station.rs: the open request of each pump.
use ypf_fleet_fuel_distribut.Prelude.{
  IsMap, Option-cases, ℕ, ◌≡◌, refl, inl, inr, Bool, true, false, Option, none, some, List, ◌==◌,
  if◌then◌else◌, get_elem?, set, get_elem?-set, HashMap, lookup, insert, erase, lookup-insert,
  lookup-erase, arith,
}
use ypf_fleet_fuel_distribut.Station.{PumpRequest, Pumps, ParsedCommand, is_usable, request_of}
use ypf_fleet_fuel_distribut.Station.Invariant.{IsConsistent, pump_of}

abbrev pub Board : Type 0
Board = ℕ → Option PumpRequest

abbrev pub open_with : Option (Option ℕ) → HashMap PumpRequest → Option PumpRequest
open_with (some (some id)) requests = lookup id requests
open_with (some none) requests = none
open_with none requests = none

-- The open requests of the simulator's tables.
abbrev pub open_at : Pumps → Board
open_at s p = open_with (get_elem? s.in_flight_by_pump p) s.requests

abbrev pub has_id : ℕ → Option PumpRequest → Bool
has_id id none = false
has_id id (some req) = req.request_id == id

opened :
    (slot : Option (Option ℕ)) (m : HashMap PumpRequest) (p id : ℕ) (req : PumpRequest)
    → lookup id m ≡ none
    → ((j : ℕ) → slot ≡ some (some j) → pump_of (lookup j m) ≡ some p)
    → open_with slot (insert id req m) ≡ open_with slot m
opened none m p id req unused live = refl
opened (some none) m p id req unused live = refl
opened (some (some j)) m p id req unused live =
    ground (arith, lookup-insert j id req m, live j refl)

-- A request for an idle pump appears at its pump.
pub registered_board :
    (n : ℕ) (s : Pumps) (slots : List (Option ℕ)) (parsed : ParsedCommand) (id p : ℕ)
    → IsConsistent n s
    → is_usable s id ≡ true
    → set s.in_flight_by_pump parsed.pump_id (some id) ≡ some slots
    → open_with (get_elem? slots p) (insert id (request_of parsed id) s.requests)
      ≡ (if p == parsed.pump_id then some (request_of parsed id) else open_at s p)
registered_board n s slots parsed id p h usable is_set =
    let req = request_of parsed id in
    let m = s.requests in
    ground (
      arith,
      get_elem?-set s.in_flight_by_pump parsed.pump_id (some id) slots p is_set,
      lookup-insert id id req m,
      opened (get_elem? s.in_flight_by_pump p) m p id req (ground arith) (h.busy p),
    )

-- The facts of the invariant that one slot needs.
abbrev IsSlot : (m : HashMap PumpRequest) (slot : Option (Option ℕ)) (p : ℕ) → Type 0
IsSlot m slot p =
    ((j : ℕ) → slot ≡ some (some j) → pump_of (lookup j m) ≡ some p)
    × ((j : ℕ) (r : PumpRequest) → lookup j m ≡ some r → r.request_id ≡ j)

slot_lem :
    (n : ℕ) (s : Pumps) (p : ℕ)
    → IsConsistent n s
    → IsSlot s.requests (get_elem? s.in_flight_by_pump p) p
slot_lem n s p h = (h.busy p, λ j r e. (h.tracked j r e).1)

unused_slot :
    (slot : Option (Option ℕ)) (m : HashMap PumpRequest) (p id : ℕ)
    → IsSlot m slot p
    → lookup id m ≡ none
    → has_id id (open_with slot m) ≡ false
unused_slot none m p id h unused = refl
unused_slot (some none) m p id h unused = refl
unused_slot (some (some j)) m p id h unused = elim (Option-cases (lookup j m)) [
  | inl missing ↦ rw missing refl
  | inr (r, found) ↦ ground (arith, found, h.1 j r found)
]

-- No pump shows an id that has no request.
pub unused_board :
    (n : ℕ) (s : Pumps) (id p : ℕ)
    → IsConsistent n s
    → lookup id s.requests ≡ none
    → has_id id (open_at s p) ≡ false
unused_board n s id p h =
    unused_slot (get_elem? s.in_flight_by_pump p) s.requests p id (slot_lem n s p h)

closed :
    (slot : Option (Option ℕ)) (m : HashMap PumpRequest) (p id : ℕ)
    → IsMap m
    → IsSlot m slot p
    → open_with slot (erase id m)
      ≡ (if has_id id (open_with slot m) then none else open_with slot m)
closed none m p id unique h = refl
closed (some none) m p id unique h = refl
closed (some (some j)) m p id unique h = elim (Option-cases (lookup j m)) [
  | inl missing ↦ ground (arith, missing, lookup-erase j id m unique)
  | inr (r, found) ↦ ground (arith, found, lookup-erase j id m unique, h.1 j r found)
]

-- A request that is closed disappears, and no other.
pub released_board :
    (n : ℕ) (s : Pumps) (slots : List (Option ℕ)) (id p : ℕ) (req : PumpRequest)
    → IsConsistent n s
    → lookup id s.requests ≡ some req
    → set s.in_flight_by_pump req.pump_id none ≡ some slots
    → open_with (get_elem? slots p) (erase id s.requests)
      ≡ (if has_id id (open_at s p) then none else open_at s p)
released_board n s slots id p req h is_open is_set = ground (
  arith,
  get_elem?-set s.in_flight_by_pump req.pump_id none slots p is_set,
  closed (get_elem? s.in_flight_by_pump p) s.requests p id h.unique (slot_lem n s p h),
  h.tracked id req is_open,
)
