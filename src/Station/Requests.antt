-- ===== src/Station/Requests.antt =====
-- What an event of `run_station_simulator` in common/src/station.rs does to the open requests of the
-- pumps.
use ypf_fleet_fuel_distribut.Prelude.{
  ℕ, ◌≡◌, refl, Bool, true, false, Option, none, some, List, [], ◌∷◌, ◌==◌, if◌then◌else◌,
  get_elem?, set, set_present, lookup, insert, lookup-insert, lookup-erase, lookup-insert_self, ◌+◌,
  arith,
}
use ypf_fleet_fuel_distribut.Domain.{VerifyError}
use ypf_fleet_fuel_distribut.Station.{
  StationToNodeMsg, NodeToStationMsg, PumpRequest, Pumps, ParsedCommand, has_request, is_usable,
  choose_request_id, request_of,
}
use ypf_fleet_fuel_distribut.Station.Simulator.{
  SimulatorEvent, line_read, node_event, line_failed, stdin_closed, node_closed, StationOutput,
  to_node, Turn, continues, stopped, send_request,
}
use ypf_fleet_fuel_distribut.Station.Invariant.{IsConsistent, registered, released}
use ypf_fleet_fuel_distribut.Station.Board.{
  Board, open_at, has_id, registered_board, unused_board, released_board,
}

-- The charge requests among the outputs.
abbrev pub charges : List StationOutput → List StationToNodeMsg
charges [] = []
charges (to_node (StationToNodeMsg.charge_request a c m id) ∷ outputs) =
    StationToNodeMsg.charge_request a c m id ∷ charges outputs
charges (_ ∷ outputs) = charges outputs

abbrev pub charge_of : PumpRequest → StationToNodeMsg
charge_of req = StationToNodeMsg.charge_request req.account_id req.card_id req.amount req.request_id

abbrev pub is_result : SimulatorEvent → Bool
is_result (node_event (NodeToStationMsg.charge_result id allowed error)) = true
is_result _ = false

-- The steps of the abstract pumps.
pub data BoardMove (event : SimulatorEvent) (before after : Board) (sent : List StationToNodeMsg)
    : Type 0 where
  stays :
      is_result event ≡ false
      → ((p : ℕ) → after p ≡ before p)
      → sent ≡ []
      → BoardMove event before after sent
  -- an idle pump gets a request with an id that no pump has, and the node is asked
  occupies :
      (req : PumpRequest)
      → is_result event ≡ false
      → before req.pump_id ≡ none
      → ((p : ℕ) → has_id req.request_id (before p) ≡ false)
      → ((p : ℕ) → after p ≡ (if p == req.pump_id then some req else before p))
      → sent ≡ charge_of req ∷ []
      → BoardMove event before after sent
  -- a result closes the request with its id, if there is one
  releases :
      (id : ℕ) (allowed : Bool) (error : Option VerifyError)
      → event ≡ node_event (NodeToStationMsg.charge_result id allowed error)
      → ((p : ℕ) → after p ≡ (if has_id id (before p) then none else before p))
      → sent ≡ []
      → BoardMove event before after sent

-- How many requests have the id `j`: none or one.
abbrev pub requested : ℕ → Pumps → ℕ
requested j s = if has_request j s.requests then 1 else 0

-- How often a charge request with the id `j` occurs.
abbrev pub asked : ℕ → List StationToNodeMsg → ℕ
asked j [] = 0
asked j (StationToNodeMsg.charge_request a c m id ∷ msgs) =
    (if j == id then 1 else 0) + asked j msgs
asked j (StationToNodeMsg.disconnect_node ∷ msgs) = asked j msgs
asked j (StationToNodeMsg.connect_node ∷ msgs) = asked j msgs

-- Whether the event is the result of request `j`.
abbrev pub is_result_of : ℕ → SimulatorEvent → Bool
is_result_of j (node_event (NodeToStationMsg.charge_result id allowed error)) = j == id
is_result_of j _ = false

-- A request is open afterwards if it was and has no result yet, or if the node is asked.
abbrev pub IsBalanced :
    (event : SimulatorEvent) (s t : Pumps) (sent : List StationToNodeMsg) → Type 0
IsBalanced event s t sent =
    (j : ℕ) → requested j t ≡ (if is_result_of j event then 0 else requested j s) + asked j sent

-- After a turn the tables agree, and the open requests have moved; it does not panic.
abbrev pub IsSound : (n : ℕ) (event : SimulatorEvent) (s : Pumps) → Turn → Type 0
IsSound n event s (continues t outputs) =
    IsConsistent n t
    × BoardMove event (open_at s) (open_at t) (charges outputs)
    × IsBalanced event s t (charges outputs)
IsSound n event s stopped = Unit {0}
IsSound n event s Turn.still_drawing = Unit {0}
IsSound n event s Turn.panicked = ⊥

pub not_result_of :
    (event : SimulatorEvent) (j : ℕ) → is_result event ≡ false → is_result_of j event ≡ false
not_result_of (line_read line draws is_open) j h = refl
not_result_of (node_event (NodeToStationMsg.charge_result id allowed error)) j h = absurd (cc)
not_result_of (node_event NodeToStationMsg.debug) j h = refl
not_result_of line_failed j h = refl
not_result_of stdin_closed j h = refl
not_result_of node_closed j h = refl

pub unmoved :
    (n : ℕ) (event : SimulatorEvent) (s : Pumps) (outputs : List StationOutput)
    → is_result event ≡ false
    → charges outputs ≡ []
    → IsConsistent n s
    → IsSound n event s (continues s outputs)
unmoved n event s outputs no_result no_charge h = (
  h,
  BoardMove.stays no_result (λ p. refl) no_charge,
  λ j. ground (arith, no_charge, not_result_of event j no_result),
)

usable_unused : (s : Pumps) (id : ℕ) → is_usable s id ≡ true → lookup id s.requests ≡ none
usable_unused s id usable = ground (arith, usable)

pub chosen_usable :
    (s : Pumps) (draws : List ℕ) (id : ℕ)
    → choose_request_id s draws ≡ some id
    → is_usable s id ≡ true
unfolding choose_request_id
chosen_usable s [] id e = absurd (cc)
chosen_usable s (candidate ∷ draws) id e = ground (arith, chosen_usable s draws id)

module _ (n : ℕ) (s : Pumps) (event : SimulatorEvent) (no_result : is_result event ≡ false) where
  -- A registered request is sent, or taken back.
  pub sent_or_released :
      (slots : List (Option ℕ)) (parsed : ParsedCommand) (id : ℕ) (is_open : Bool)
      → IsConsistent n s
      → get_elem? s.in_flight_by_pump parsed.pump_id ≡ some none
      → is_usable s id ≡ true
      → set s.in_flight_by_pump parsed.pump_id (some id) ≡ some slots
      → IsSound n event s (
          send_request
            (record {
              in_flight_by_pump = slots;
              requests = insert id (request_of parsed id) s.requests;
            })
            is_open
            (request_of parsed id))
  unfolding send_request
  sent_or_released slots parsed id true h idle usable is_set = (
    registered n s slots parsed id h idle usable is_set,
    BoardMove.occupies (request_of parsed id) no_result (rw idle refl)
        (λ p. unused_board n s id p h (usable_unused s id usable))
        (λ p. registered_board n s slots parsed id p h usable is_set) refl,
    λ j. ground (
      arith,
      usable,
      lookup-insert j id (request_of parsed id) s.requests,
      not_result_of event j no_result,
    ),
  )
  sent_or_released slots parsed id false h idle usable is_set =
      let req = request_of parsed id in
      let t : Pumps = record { in_flight_by_pump = slots; requests = insert id req s.requests } in
      let ht = registered n s slots parsed id h idle usable is_set in
      let found = lookup-insert_self id req s.requests in
      let (freed, is_freed) =
        set_present slots parsed.pump_id (some id) none (ht.tracked id req found).0 in
      rw (is_freed, send_request)
        (
          released n t freed id req ht found is_freed,
          BoardMove.stays no_result
              (λ p. ground (
                arith,
                idle,
                released_board n t freed id p req ht found is_freed,
                registered_board n s slots parsed id p h usable is_set,
                unused_board n s id p h (usable_unused s id usable),
              ))
              refl,
          λ j. ground (
            arith,
            usable,
            lookup-insert j id req s.requests,
            lookup-erase j id t.requests ht.unique,
            not_result_of event j no_result,
          ),
        )
