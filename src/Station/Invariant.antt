-- ===== src/Station/Invariant.antt =====
-- The two tables of `run_station_simulator` in common/src/station.rs agree, so no index is out of
-- range.
use ypf_fleet_fuel_distribut.Prelude.{
  ◌∙◌, ℕ, zero, suc, ◌≡◌, ◌≢◌, inl, inr, true, Option, none, some, List, [], ◌∷◌, Option-cases,
  get_elem?, set, get_elem?-set, length, lookup, insert, erase, IsMap, IsMap-insert, IsMap-erase,
  lookup-insert, lookup-erase, arith,
}
use ypf_fleet_fuel_distribut.Station.{PumpRequest, Pumps, ParsedCommand, is_usable, request_of}

abbrev pub pump_of : Option PumpRequest → Option ℕ
pump_of none = none
pump_of (some req) = some req.pump_id

-- Pump `p` is busy with `id` exactly when request `id` is of pump `p`; no request has the id 0.
pub record IsConsistent (num_pumps : ℕ) (s : Pumps) : Type 0 where
  pub unique : IsMap s.requests
  pub size : length s.in_flight_by_pump ≡ num_pumps
  pub busy :
      (p id : ℕ)
      → get_elem? s.in_flight_by_pump p ≡ some (some id)
      → pump_of (lookup id s.requests) ≡ some p
  pub tracked :
      (id : ℕ) (req : PumpRequest)
      → lookup id s.requests ≡ some req
      → (get_elem? s.in_flight_by_pump req.pump_id ≡ some (some id))
        × (req.request_id ≡ id)
        × (id ≢ 0)

length-set {ℓ} :
    {A : Type ℓ} (xs : List A) (i : ℕ) (y : A) (ys : List A)
    → set xs i y ≡ some ys
    → length ys ≡ length xs
length-set [] i y ys e = absurd (cc)
length-set (x ∷ xs) zero y ys e = ground arith
length-set (x ∷ xs) (suc i) y ys e = elim (Option-cases (set xs i y)) [
  | inl no_slot ↦ absurd (ground (arith, no_slot))
  | inr (zs, is_set) ↦ ground (arith, is_set, length-set xs i y zs is_set)
]

-- A request for an idle pump.
pub registered :
    (n : ℕ) (s : Pumps) (slots : List (Option ℕ)) (parsed : ParsedCommand) (id : ℕ)
    → IsConsistent n s
    → get_elem? s.in_flight_by_pump parsed.pump_id ≡ some none
    → is_usable s id ≡ true
    → set s.in_flight_by_pump parsed.pump_id (some id) ≡ some slots
    → IsConsistent n (record {
      in_flight_by_pump = slots;
      requests = insert id (request_of parsed id) s.requests;
    })
registered n s slots parsed id h idle usable is_set =
    let p = parsed.pump_id in
    let m = s.requests in
    let got = λ (q : ℕ). get_elem?-set s.in_flight_by_pump p (some id) slots q is_set in
    let found = λ (j : ℕ). lookup-insert j id (request_of parsed id) m in
    record {
      unique = IsMap-insert id (request_of parsed id) m h.unique;
      size = length-set s.in_flight_by_pump p (some id) slots is_set ∙ h.size;
      busy = λ q j e. ground (arith, got q, found j, h.busy q j);
      tracked = λ j req e. ground (arith, got req.pump_id, found j, h.tracked j req);
    }

-- A request that is answered or could not be sent.
pub released :
    (n : ℕ) (s : Pumps) (slots : List (Option ℕ)) (id : ℕ) (req : PumpRequest)
    → IsConsistent n s
    → lookup id s.requests ≡ some req
    → set s.in_flight_by_pump req.pump_id none ≡ some slots
    → IsConsistent n (record { in_flight_by_pump = slots; requests = erase id s.requests })
released n s slots id req h is_open is_set =
    let p = req.pump_id in
    let m = s.requests in
    let got = λ (q : ℕ). get_elem?-set s.in_flight_by_pump p none slots q is_set in
    let left = λ (j : ℕ). lookup-erase j id m h.unique in
    record {
      unique = IsMap-erase id m h.unique;
      size = length-set s.in_flight_by_pump p none slots is_set ∙ h.size;
      busy = λ q j e. ground (arith, got q, left j, h.busy q j, h.tracked id req is_open);
      tracked =
          λ j r e. ground (arith, got r.pump_id, left j, h.tracked j r, h.tracked id req is_open);
    }
