-- ===== src/Station/Draws.antt =====
-- The loop of `handle_user_command` in common/src/station.rs that draws a request id.
use ypf_fleet_fuel_distribut.Prelude.{
  ℕ, suc, ◌+◌, ◌≤◌, ◌<◌, ◌≡◌, ◌≢◌, refl, inl, inr, Bool, true, false, ◌||◌, Option, none, some,
  Option-cases, List, [], ◌∷◌, ◌++◌, ◌==◌, if◌then◌else◌, length, length-append, All, HashMap,
  lookup, arith,
}
use ypf_fleet_fuel_distribut.Station.{
  PumpRequest, Pumps, is_in_flight, has_request, is_usable, choose_request_id,
}
use ypf_fleet_fuel_distribut.Station.Requests.{chosen_usable}

abbrev contains : ℕ → List ℕ → Bool
contains c [] = false
contains c (x ∷ xs) = c == x || contains c xs

abbrev pub IsDistinct : List ℕ → Type 0
IsDistinct [] = Unit {0}
IsDistinct (x ∷ xs) = (contains x xs ≡ false) × IsDistinct xs

abbrev drop_one : ℕ → List ℕ → List ℕ
drop_one c [] = []
drop_one c (x ∷ xs) = if c == x then xs else x ∷ drop_one c xs

length-drop_one :
    (c : ℕ) (xs : List ℕ) → contains c xs ≡ true → suc (length (drop_one c xs)) ≡ length xs
length-drop_one c [] h = absurd (cc)
length-drop_one c (x ∷ xs) h = ground (arith, length-drop_one c xs)

contains-drop_one :
    (c d : ℕ) (xs : List ℕ) → d ≢ c → contains d xs ≡ true → contains d (drop_one c xs) ≡ true
contains-drop_one c d [] other h = absurd (cc)
contains-drop_one c d (x ∷ xs) other h = ground (arith, contains-drop_one c d xs)

others_contained :
    (x : ℕ) (draws xs : List ℕ)
    → contains x draws ≡ false
    → All (λ c. contains c xs ≡ true) draws
    → All (λ c. contains c (drop_one x xs) ≡ true) draws
others_contained x [] xs fresh h = tt
others_contained x (c ∷ draws) xs fresh h =
    (contains-drop_one x c xs (ground arith) h.0, others_contained x draws xs (ground arith) h.1)

-- Distinct numbers of a list are no more than it has places.
pigeons :
    (draws xs : List ℕ)
    → IsDistinct draws
    → All (λ c. contains c xs ≡ true) draws
    → length draws ≤ length xs
pigeons [] xs distinct h = omega arith
pigeons (c ∷ draws) xs distinct h = omega (
  arith,
  pigeons draws (drop_one c xs) distinct.1 (others_contained c draws xs distinct.0 h.1),
  length-drop_one c xs h.0,
)

abbrev keys_of : HashMap PumpRequest → List ℕ
keys_of [] = []
keys_of (e ∷ requests) = e.0 ∷ keys_of requests

abbrev busy_ids : List (Option ℕ) → List ℕ
busy_ids [] = []
busy_ids (none ∷ slots) = busy_ids slots
busy_ids (some id ∷ slots) = id ∷ busy_ids slots

-- The numbers that the loop refuses.
abbrev refused_ids : Pumps → List ℕ
refused_ids s = 0 ∷ keys_of s.requests ++ busy_ids s.in_flight_by_pump

length-keys_of : (m : HashMap PumpRequest) → length (keys_of m) ≡ length m
length-keys_of [] = refl
length-keys_of (e ∷ m) = omega (arith, length-keys_of m)

length-busy_ids : (slots : List (Option ℕ)) → length (busy_ids slots) ≤ length slots
length-busy_ids [] = omega arith
length-busy_ids (none ∷ slots) = omega (arith, length-busy_ids slots)
length-busy_ids (some id ∷ slots) = omega (arith, length-busy_ids slots)

contains-append :
    (c : ℕ) (xs ys : List ℕ) → contains c (xs ++ ys) ≡ (contains c xs || contains c ys)
contains-append c [] ys = refl
contains-append c (x ∷ xs) ys = ground (arith, contains-append c xs ys)

contains-keys_of : (c : ℕ) (m : HashMap PumpRequest) → has_request c m ≡ contains c (keys_of m)
contains-keys_of c [] = refl
contains-keys_of c (e ∷ m) = ground (arith, contains-keys_of c m)

contains-busy_ids :
    (c : ℕ) (slots : List (Option ℕ)) → is_in_flight c slots ≡ contains c (busy_ids slots)
contains-busy_ids c [] = refl
contains-busy_ids c (none ∷ slots) = contains-busy_ids c slots
contains-busy_ids c (some id ∷ slots) = ground (arith, contains-busy_ids c slots)

refused_lem : (s : Pumps) (c : ℕ) → is_usable s c ≡ false → contains c (refused_ids s) ≡ true
refused_lem s c h = ground (
  arith,
  h,
  contains-append c (keys_of s.requests) (busy_ids s.in_flight_by_pump),
  contains-keys_of c s.requests,
  contains-busy_ids c s.in_flight_by_pump,
)

undrawn_refused :
    (s : Pumps) (draws : List ℕ)
    → choose_request_id s draws ≡ none
    → All (λ c. contains c (refused_ids s) ≡ true) draws
unfolding choose_request_id
undrawn_refused s [] e = tt
undrawn_refused s (c ∷ draws) e =
    (refused_lem s c (ground arith), undrawn_refused s draws (ground arith))

-- Among distinct draws, more than one for each open request, one for each pump and one for 0, the loop finds a
-- request id: it is not 0, and no open request and no pump has it.
pub enough_draws_choose :
    (s : Pumps) (draws : List ℕ)
    → IsDistinct draws
    → length s.requests + length s.in_flight_by_pump + 1 < length draws
    → (id : ℕ) × (choose_request_id s draws ≡ some id)
      × (id ≢ 0)
      × (lookup id s.requests ≡ none)
      × (is_in_flight id s.in_flight_by_pump ≡ false)
enough_draws_choose s draws distinct enough = elim (Option-cases (choose_request_id s draws)) [
  | inl undrawn ↦ absurd (
      omega (
        arith,
        pigeons draws (refused_ids s) distinct (undrawn_refused s draws undrawn),
        length-append (keys_of s.requests) (busy_ids s.in_flight_by_pump),
        length-keys_of s.requests,
        length-busy_ids s.in_flight_by_pump,
      ))
  | inr (id, drawn) ↦
      let usable = chosen_usable s draws id drawn in
      (id, drawn, ground arith, ground arith, ground arith)
]
