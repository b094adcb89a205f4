-- ===== src/Station/Simulator.antt =====
-- The loop of `run_station_simulator` in common/src/station.rs, one event of the `select!` at a time.
use ypf_fleet_fuel_distribut.Prelude.{
  ℕ, zero, suc, Bool, true, false, ◌||◌, Option, none, some, List, [], ◌∷◌, ◌++◌, ◌==◌,
  if◌then◌else◌, set, lookup, erase,
}
use ypf_fleet_fuel_distribut.Float.{F32}
use ypf_fleet_fuel_distribut.Text.{Text, codes, is_empty, trim, eq_ignore_ascii_case}
use ypf_fleet_fuel_distribut.Station.{
  StationToNodeMsg, NodeToStationMsg, PumpRequest, Pumps, initial, CommandOutcome, rejected,
  created, handle_user_command, Notice, EventOutcome, handled, handle_node_event,
}

pub data SimulatorEvent : Type 0 where
  -- a line from stdin; what `rng.gen()` returns while it is handled; and whether the channel to the
  -- node takes a message
  line_read : (line : Text) (draws : List ℕ) (is_open : Bool) → SimulatorEvent
  node_event : NodeToStationMsg → SimulatorEvent
  line_failed stdin_closed node_closed : SimulatorEvent

pub data StationOutput : Type 0 where
  to_node : StationToNodeMsg → StationOutput
  print : Notice → StationOutput

pub data Turn : Type 0 where
  continues : (pumps : Pumps) (outputs : List StationOutput) → Turn
  stopped still_drawing panicked : Turn

-- `Some(id)` becomes `None`, the first time it occurs.
unfoldable pub free_slot : ℕ → List (Option ℕ) → List (Option ℕ)
free_slot id [] = []
free_slot id (none ∷ slots) = none ∷ free_slot id slots
free_slot id (some busy ∷ slots) =
    if busy == id then none ∷ slots else some busy ∷ free_slot id slots

-- Sends a control command to the node.
unfoldable pub send_control : Pumps → Bool → StationToNodeMsg → Turn
send_control s is_open msg =
    if is_open then continues s (to_node msg ∷ []) else continues s (print Notice.send_failed ∷ [])

-- Sends a charge request; if that fails, the pump is free again.
unfoldable pub send_request : Pumps → Bool → PumpRequest → Turn
send_request s true req = continues s (
    print (Notice.request_sent req)
    ∷ to_node (StationToNodeMsg.charge_request req.account_id req.card_id req.amount req.request_id)
    ∷ [])
send_request s false req = elim (set s.in_flight_by_pump req.pump_id none) [
  | none ↦ Turn.panicked
  | some slots ↦
      continues (record { in_flight_by_pump = slots; requests = erase req.request_id s.requests })
        (print (Notice.request_sent req) ∷ print Notice.send_failed ∷ [])
]

-- What follows `handle_user_command`.
unfoldable pub after_command : Pumps → Bool → CommandOutcome → Turn
after_command s is_open (rejected reason) = continues s (print (Notice.input_error reason) ∷ [])
after_command s is_open (created pumps request_id) = elim (lookup request_id pumps.requests) [
  | none ↦
      continues (record pumps { in_flight_by_pump = free_slot request_id pumps.in_flight_by_pump })
        (print (Notice.lost_request request_id) ∷ [])
  | some req ↦ send_request pumps is_open req
]
after_command s is_open CommandOutcome.still_drawing = Turn.still_drawing
after_command s is_open CommandOutcome.panicked = Turn.panicked

-- A line without the white space around it.
unfoldable pub handle_line :
    (Text → Option F32) → (num_pumps : ℕ) → Pumps → (line : Text) → List ℕ → Bool → Turn
handle_line read_amount num_pumps s line draws is_open =
    if is_empty line
    then continues s []
    else if eq_ignore_ascii_case line (codes "quit") || eq_ignore_ascii_case line (codes "exit")
    then stopped
    else if eq_ignore_ascii_case line (codes "help")
    then continues s (print Notice.help ∷ [])
    else if eq_ignore_ascii_case line (codes "disconnect")
    then send_control s is_open StationToNodeMsg.disconnect_node
    else if eq_ignore_ascii_case line (codes "connect")
    then send_control s is_open StationToNodeMsg.connect_node
    else after_command s is_open (handle_user_command read_amount num_pumps s draws line)

unfoldable pub step : (Text → Option F32) → (num_pumps : ℕ) → Pumps → SimulatorEvent → Turn
step read_amount num_pumps s (line_read line draws is_open) =
    handle_line read_amount num_pumps s (trim line) draws is_open
step read_amount num_pumps s (node_event msg) = elim (handle_node_event s msg) [
  | handled pumps notice ↦ continues pumps (print notice ∷ [])
  | EventOutcome.panicked ↦ Turn.panicked
]
step read_amount num_pumps s line_failed = continues s (print Notice.read_failed ∷ [])
step read_amount num_pumps s stdin_closed = stopped
step read_amount num_pumps s node_closed = stopped

-- Puts what was output before in front.
abbrev pub behind : List StationOutput → Turn → Turn
behind outputs (continues s later) = continues s (outputs ++ later)
behind outputs turn = turn

-- A turn, and what the loop does after it if it goes on.
abbrev pub and_then : Turn → (Pumps → Turn) → Turn
and_then (continues s outputs) rest = behind outputs (rest s)
and_then stopped rest = stopped
and_then Turn.still_drawing rest = Turn.still_drawing
and_then Turn.panicked rest = Turn.panicked

-- The loop, over the events of a run.
unfoldable pub run_loop : (Text → Option F32) → (num_pumps : ℕ) → Pumps → List SimulatorEvent → Turn
run_loop read_amount num_pumps s [] = continues s []
run_loop read_amount num_pumps s (event ∷ events) =
    and_then (step read_amount num_pumps s event) (λ t. run_loop read_amount num_pumps t events)

unfoldable pub run_station_simulator : (Text → Option F32) → ℕ → List SimulatorEvent → Turn
run_station_simulator read_amount zero events = stopped
run_station_simulator read_amount (suc n) events =
    run_loop read_amount (suc n) (initial (suc n)) events
