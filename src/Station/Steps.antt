-- ===== src/Station/Steps.antt =====
-- Every event of `run_station_simulator` in common/src/station.rs is a step of the abstract pumps, and
-- none panics.
use ypf_fleet_fuel_distribut.Station.{
  created, StationToNodeMsg, NodeToStationMsg, Pumps, ParsedCommand, CommandError, CommandOutcome,
  parse_tokens, parse_command, choose_request_id, register, begin_request, handle_user_command,
  request_of, handle_node_event, Notice,
}
use ypf_fleet_fuel_distribut.Prelude.{
  ℕ, ◌≡◌, ◌<◌, refl, inl, inr, ◌⊎◌, Option-cases, Bool, true, false, ◌||◌, Option, none, some, List,
  [], ◌∷◌, if◌then◌else◌, get_elem?, get_elem?-bound, set, set_present, lookup, insert,
  lookup-insert_self, lookup-erase, arith,
}
use ypf_fleet_fuel_distribut.Float.{F32}
use ypf_fleet_fuel_distribut.Domain.{VerifyError}
use ypf_fleet_fuel_distribut.Text.{
  Text, trim, codes, is_empty, eq_ignore_ascii_case, split_whitespace,
}
use ypf_fleet_fuel_distribut.Text.Attempts.{ok, Attempt-cases}
use ypf_fleet_fuel_distribut.Station.Simulator.{
  SimulatorEvent, line_read, node_event, line_failed, stdin_closed, node_closed, Turn, continues,
  stopped, to_node, print, send_control, after_command, handle_line, step,
}
use ypf_fleet_fuel_distribut.Station.Invariant.{IsConsistent, released}
use ypf_fleet_fuel_distribut.Station.Board.{unused_board, released_board}
use ypf_fleet_fuel_distribut.Station.Requests.{
  BoardMove, charges, is_result, IsSound, unmoved, chosen_usable, sent_or_released,
}

slot_cases :
    (o : Option (Option ℕ)) → (o ≡ none) ⊎ (o ≡ some none) ⊎ ((id : ℕ) × (o ≡ some (some id)))
slot_cases none = inl refl
slot_cases (some none) = inr (inl refl)
slot_cases (some (some id)) = inr (inr (id, refl))

tokens_in_range :
    (read_amount : Text → Option F32) (n : ℕ) (tokens : List Text) (parsed : ParsedCommand)
    → parse_tokens read_amount n tokens ≡ ok parsed
    → parsed.pump_id < n
unfolding parse_tokens
tokens_in_range read_amount n [] parsed e = absurd (cc)
tokens_in_range read_amount n (t0 ∷ []) parsed e = absurd (cc)
tokens_in_range read_amount n (t0 ∷ t1 ∷ []) parsed e = absurd (cc)
tokens_in_range read_amount n (t0 ∷ t1 ∷ t2 ∷ []) parsed e = absurd (cc)
tokens_in_range read_amount n (t0 ∷ t1 ∷ t2 ∷ t3 ∷ []) parsed e = ground arith
tokens_in_range read_amount n (t0 ∷ t1 ∷ t2 ∷ t3 ∷ t4 ∷ tokens) parsed e = absurd (cc)

-- A command is for one of the pumps.
pub parsed_in_range :
    (read_amount : Text → Option F32) (n : ℕ) (line : Text) (parsed : ParsedCommand)
    → parse_command read_amount n line ≡ ok parsed
    → parsed.pump_id < n
unfolding parse_command
parsed_in_range read_amount n line parsed =
    tokens_in_range read_amount n (split_whitespace line) parsed

begin_busy :
    (s : Pumps) (draws : List ℕ) (parsed : ParsedCommand) (id : ℕ)
    → get_elem? s.in_flight_by_pump parsed.pump_id ≡ some (some id)
    → begin_request s draws parsed
      ≡ CommandOutcome.rejected (CommandError.pump_busy parsed.pump_id id)
unfolding begin_request
begin_busy s draws parsed id busy = ground (arith, busy)

begin_undrawn :
    (s : Pumps) (draws : List ℕ) (parsed : ParsedCommand)
    → get_elem? s.in_flight_by_pump parsed.pump_id ≡ some none
    → choose_request_id s draws ≡ none
    → begin_request s draws parsed ≡ CommandOutcome.still_drawing
unfolding begin_request
begin_undrawn s draws parsed idle undrawn = ground (arith, idle, undrawn)

-- A command for an idle pump registers a request under the drawn id.
pub begin_idle :
    (s : Pumps) (draws : List ℕ) (parsed : ParsedCommand) (id : ℕ) (slots : List (Option ℕ))
    → get_elem? s.in_flight_by_pump parsed.pump_id ≡ some none
    → choose_request_id s draws ≡ some id
    → set s.in_flight_by_pump parsed.pump_id (some id) ≡ some slots
    → begin_request s draws parsed
      ≡ created
          (record {
            in_flight_by_pump = slots;
            requests = insert id (request_of parsed id) s.requests;
          })
          id
unfolding begin_request register
begin_idle s draws parsed id slots idle drawn is_set = ground (arith, idle, drawn, is_set)

module _ (n : ℕ) (s : Pumps) (event : SimulatorEvent) (no_result : is_result event ≡ false)
    (h : IsConsistent n s) where
  refused_IsSound :
      (reason : CommandError)
      → IsSound n event s (continues s (print (Notice.input_error reason) ∷ []))
  refused_IsSound reason =
      unmoved n event s (print (Notice.input_error reason) ∷ []) no_result refl h

  begun_IsSound :
      (draws : List ℕ) (parsed : ParsedCommand) (is_open : Bool)
      → parsed.pump_id < n
      → IsSound n event s (after_command s is_open (begin_request s draws parsed))
  unfolding after_command
  begun_IsSound draws parsed is_open small =
      elim (slot_cases (get_elem? s.in_flight_by_pump parsed.pump_id)) [
        | inl missing ↦
            absurd
              (ground (arith, missing, h.size, get_elem?-bound s.in_flight_by_pump parsed.pump_id))
        | inr (inr (id, is_busy)) ↦
            rw (begin_busy s draws parsed id is_busy)
              (refused_IsSound (CommandError.pump_busy parsed.pump_id id))
        | inr (inl idle) ↦ elim (Option-cases (choose_request_id s draws)) [
          | inl undrawn ↦ rw (begin_undrawn s draws parsed idle undrawn) tt
          | inr (id, drawn) ↦
              let (slots, is_set) =
                set_present s.in_flight_by_pump parsed.pump_id none (some id) idle in
              rw
                (
                  begin_idle s draws parsed id slots idle drawn is_set,
                  after_command,
                  lookup-insert_self id (request_of parsed id) s.requests,
                )
                (sent_or_released n s event no_result slots parsed id is_open h idle
                  (chosen_usable s draws id drawn) is_set)
        ]
      ]

  command_IsSound :
      (read_amount : Text → Option F32) (line : Text) (draws : List ℕ) (is_open : Bool)
      → IsSound n event s (after_command s is_open (handle_user_command read_amount n s draws line))
  unfolding handle_user_command after_command
  command_IsSound read_amount line draws is_open =
      elim (Attempt-cases (parse_command read_amount n line)) [
        | inl (reason, refused) ↦ rw (refused, handle_user_command) (refused_IsSound reason)
        | inr (parsed, read) ↦
            rw (read, handle_user_command)
              (begun_IsSound draws parsed is_open (parsed_in_range read_amount n line parsed read))
      ]

  if_IsSound :
      (test : Bool) (x y : Turn)
      → IsSound n event s x
      → IsSound n event s y
      → IsSound n event s (if test then x else y)
  if_IsSound true x y hx hy = hx
  if_IsSound false x y hx hy = hy

  control_IsSound :
      (is_open : Bool) (msg : StationToNodeMsg)
      → charges (to_node msg ∷ []) ≡ []
      → IsSound n event s (send_control s is_open msg)
  unfolding send_control
  control_IsSound is_open msg no_charge =
      if_IsSound is_open (continues s (to_node msg ∷ []))
        (continues s (print Notice.send_failed ∷ []))
        (unmoved n event s (to_node msg ∷ []) no_result no_charge h)
        (unmoved n event s (print Notice.send_failed ∷ []) no_result refl h)

  line_IsSound :
      (read_amount : Text → Option F32) (line : Text) (draws : List ℕ) (is_open : Bool)
      → IsSound n event s (handle_line read_amount n s line draws is_open)
  unfolding handle_line
  line_IsSound read_amount line draws is_open =
      let is = λ (word : Text). eq_ignore_ascii_case line word in
      let asked = after_command s is_open (handle_user_command read_amount n s draws line) in
      let on = send_control s is_open StationToNodeMsg.connect_node in
      let off = send_control s is_open StationToNodeMsg.disconnect_node in
      let helped = continues s (print Notice.help ∷ []) in
      let after_off = if is (codes "connect") then on else asked in
      let after_help = if is (codes "disconnect") then off else after_off in
      let after_quit = if is (codes "help") then helped else after_help in
      let quits = is (codes "quit") || is (codes "exit") in
      let after_empty = if quits then stopped else after_quit in
      if_IsSound (is_empty line) (continues s []) after_empty
        (unmoved n event s [] no_result refl h)
        (if_IsSound quits stopped after_quit tt (
          if_IsSound (is (codes "help")) helped after_help
            (unmoved n event s (print Notice.help ∷ []) no_result refl h)
            (if_IsSound (is (codes "disconnect")) off after_off
              (control_IsSound is_open StationToNodeMsg.disconnect_node refl)
              (if_IsSound (is (codes "connect")) on asked
                (control_IsSound is_open StationToNodeMsg.connect_node refl)
                (command_IsSound read_amount line draws is_open)))))

result_IsSound :
    (n : ℕ) (s : Pumps) (id : ℕ) (allowed : Bool) (error : Option VerifyError)
    → IsConsistent n s
    → (read_amount : Text → Option F32)
    → IsSound n
        (node_event (NodeToStationMsg.charge_result id allowed error))
        s
        (step read_amount n s (node_event (NodeToStationMsg.charge_result id allowed error)))
unfolding step handle_node_event
result_IsSound n s id allowed error h read_amount = elim (Option-cases (lookup id s.requests)) [
  | inl unknown ↦
      rw (unknown, step, handle_node_event)
        (
          h,
          BoardMove.releases id allowed error refl (λ p. rw (unused_board n s id p h unknown) refl)
              refl,
          λ j. ground (arith, unknown),
        )
  | inr (req, found) ↦
      let (slots, is_set) =
        set_present s.in_flight_by_pump req.pump_id (some id) none (h.tracked id req found).0 in
      rw (found, step, handle_node_event, is_set)
        (
          released n s slots id req h found is_set,
          BoardMove.releases id allowed error refl
              (λ p. released_board n s slots id p req h found is_set) refl,
          λ j. ground (arith, lookup-erase j id s.requests h.unique),
        )
]

pub step-IsSound :
    (read_amount : Text → Option F32) (n : ℕ) (s : Pumps) (event : SimulatorEvent)
    → IsConsistent n s
    → IsSound n event s (step read_amount n s event)
unfolding step handle_node_event
step-IsSound read_amount n s (line_read line draws is_open) h =
    line_IsSound n s (line_read line draws is_open) refl h read_amount (trim line) draws is_open
step-IsSound read_amount n s (node_event (NodeToStationMsg.charge_result id allowed error)) h =
    result_IsSound n s id allowed error h read_amount
step-IsSound read_amount n s (node_event NodeToStationMsg.debug) h =
    unmoved n (node_event NodeToStationMsg.debug) s (print Notice.node_debug ∷ []) refl refl h
step-IsSound read_amount n s line_failed h =
    unmoved n line_failed s (print Notice.read_failed ∷ []) refl refl h
step-IsSound read_amount n s stdin_closed h = tt
step-IsSound read_amount n s node_closed h = tt
