-- ===== src/Station/Tests.antt =====
-- Runs of the pumps of common/src/station.rs on concrete events.
use mathlib.Core.Logic.{◌↔◌}
use ypf_fleet_fuel_distribut.Prelude.{
  ℕ, ◌≡◌, ◌≢◌, refl, true, false, Option, none, some, [], ◌∷◌, ◌++◌, lookup, arith,
}
use ypf_fleet_fuel_distribut.Float.{F32}
use ypf_fleet_fuel_distribut.Text.{
  Text, codes, is_whitespace, split_whitespace, words_from, trim, trim_start, trim_end,
  parse_digits, parse_unsigned, eq_ignore_ascii_case, max_u64,
}
use ypf_fleet_fuel_distribut.Text.Attempts.{ok, err}
use ypf_fleet_fuel_distribut.Text.Words.{spaced}
use ypf_fleet_fuel_distribut.Station.{
  StationToNodeMsg, NodeToStationMsg, PumpRequest, ParsedCommand, Pumps, CommandError, initial,
  is_in_flight, parse_tokens, parse_command, choose_request_id, register, begin_request,
  handle_user_command, handle_node_event, Notice,
}
use ypf_fleet_fuel_distribut.Station.Simulator.{
  line_read, node_event, to_node, print, Turn, continues, send_request, after_command, handle_line,
  step, run_loop, run_station_simulator,
}
use ypf_fleet_fuel_distribut.Station.Invariant.{IsConsistent}
use ypf_fleet_fuel_distribut.Station.Board.{open_at}
use ypf_fleet_fuel_distribut.Station.Requests.{BoardMove}
use ypf_fleet_fuel_distribut.Station.Draws.{enough_draws_choose}
use ypf_fleet_fuel_distribut.Station.Runs.{
  IsSafe, event_moves_pumps, run_station_simulator-IsSafe, initial-IsConsistent,
}
use ypf_fleet_fuel_distribut.Station.Parsing.{SpellsCommand, parse_command_iff, spelled_command}

-- Every amount is 10.0.
abbrev read_ten : Text → Option F32
read_ten token = some 0x41200000

abbrev ten_on_pump_one : ParsedCommand
ten_on_pump_one = record { pump_id = 1; account_id = 7; card_id = 10; amount = 0x41200000 }

abbrev request_5 : PumpRequest
request_5 = record {
  pump_id = 1;
  account_id = 7;
  card_id = 10;
  amount = 0x41200000;
  request_id = 5;
}

abbrev busy_pumps : Pumps
busy_pumps = record { in_flight_by_pump = none ∷ some 5 ∷ []; requests = (5, request_5) ∷ [] }

abbrev typed_line : Text
typed_line = codes "1 7 +10 10.0"

typed_line_parses : parse_command read_ten 2 typed_line ≡ ok ten_on_pump_one
unfolding parse_command parse_tokens split_whitespace words_from is_whitespace parse_unsigned
    parse_digits
typed_line_parses = refl

pump_out_of_range : parse_command read_ten 1 typed_line ≡ err (CommandError.pump_out_of_range 1 0)
unfolding parse_command parse_tokens split_whitespace words_from is_whitespace parse_unsigned
    parse_digits
pump_out_of_range = refl

too_large : parse_unsigned max_u64 (codes "18446744073709551616") ≡ none
unfolding parse_unsigned parse_digits
too_large = refl

-- The draw 0 is passed over.
request_is_made :
    step read_ten 2 (initial 2) (line_read typed_line (0 ∷ 5 ∷ []) true)
    ≡ continues busy_pumps (
        print (Notice.request_sent request_5)
        ∷ to_node (StationToNodeMsg.charge_request 7 10 0x41200000 5)
        ∷ [])
unfolding step handle_line trim trim_start trim_end is_whitespace eq_ignore_ascii_case after_command
    handle_user_command parse_command parse_tokens split_whitespace words_from parse_unsigned
    parse_digits begin_request choose_request_id register send_request initial
request_is_made = refl

result_frees_pump :
    run_station_simulator read_ten 2 (
      line_read typed_line (5 ∷ []) true
      ∷ node_event (NodeToStationMsg.charge_result 5 true none)
      ∷ line_read (codes "  QUIT ") [] true
      ∷ [])
    ≡ Turn.stopped
unfolding run_station_simulator run_loop step handle_node_event handle_line trim trim_start trim_end
    is_whitespace eq_ignore_ascii_case after_command handle_user_command parse_command parse_tokens
    split_whitespace words_from parse_unsigned parse_digits begin_request choose_request_id register
    send_request initial
result_frees_pump = refl

event_moves_pumps_example :
    BoardMove
      (line_read typed_line (0 ∷ 5 ∷ []) true)
      (open_at (initial 2))
      (open_at busy_pumps)
      (StationToNodeMsg.charge_request 7 10 0x41200000 5 ∷ [])
    × IsConsistent 2 busy_pumps
event_moves_pumps_example =
    event_moves_pumps read_ten 2 (initial 2) busy_pumps (line_read typed_line (0 ∷ 5 ∷ []) true)
      (print (Notice.request_sent request_5)
        ∷ to_node (StationToNodeMsg.charge_request 7 10 0x41200000 5)
        ∷ [])
      (initial-IsConsistent 2) request_is_made

run_station_simulator-IsSafe_example : IsSafe 2 (
    run_station_simulator read_ten 2 (
      line_read typed_line (5 ∷ []) true
      ∷ node_event (NodeToStationMsg.charge_result 5 true none)
      ∷ []))
run_station_simulator-IsSafe_example = run_station_simulator-IsSafe read_ten 2 (
    line_read typed_line (5 ∷ []) true
    ∷ node_event (NodeToStationMsg.charge_result 5 true none)
    ∷ [])

enough_draws_choose_example :
    (id : ℕ) × (choose_request_id busy_pumps (5 ∷ 0 ∷ 9 ∷ 4 ∷ 8 ∷ []) ≡ some id)
    × (id ≢ 0)
    × (lookup id busy_pumps.requests ≡ none)
    × (is_in_flight id busy_pumps.in_flight_by_pump ≡ false)
enough_draws_choose_example =
    enough_draws_choose busy_pumps (5 ∷ 0 ∷ 9 ∷ 4 ∷ 8 ∷ [])
      (refl, (refl, (refl, (refl, (refl, tt))))) (omega arith)

parse_command_iff_example :
    (parse_command read_ten 2 typed_line ≡ ok ten_on_pump_one)
    ↔ SpellsCommand read_ten 2 (split_whitespace typed_line) ten_on_pump_one
parse_command_iff_example = parse_command_iff read_ten 2 typed_line ten_on_pump_one

plain_words :
    (is_whitespace b'1' ≡ false) × (is_whitespace b'7' ≡ false) × (is_whitespace b'0' ≡ false)
unfolding is_whitespace
plain_words = (refl, refl, refl)

spelled_words_parse :
    parse_command read_ten 2 (codes "1" ++ spaced (codes "7" ∷ codes "10" ∷ codes "10" ∷ []))
    ≡ ok ten_on_pump_one
spelled_words_parse =
    spelled_command read_ten 2 (codes "1") (codes "7") (codes "10") (codes "10") ten_on_pump_one
      (refl, (plain_words.0, tt))
      (
        (refl, (plain_words.1, tt)),
        (
          (refl, (plain_words.0, (plain_words.2, tt))),
          ((refl, (plain_words.0, (plain_words.2, tt))), tt),
        ),
      )
      (
        (refl, omega arith, refl),
        omega arith,
        omega arith,
        (refl, omega arith, refl),
        omega arith,
        (refl, omega arith, refl),
        omega arith,
        refl,
      )
