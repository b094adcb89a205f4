-- ===== src/Station.antt =====
-- The pumps of common/src/station.rs: the commands of an operator and the answers of the node.
-- A random draw and the parser of an `f32` belong to libraries: a command takes the numbers that
-- `rng.gen()` returns, in order, and `read_amount` for `str::parse::<f32>`. The simulator runs with
-- at least one pump.
pub mod Simulator
pub mod Invariant
pub mod Board
pub mod Requests
pub mod Steps
pub mod Draws
pub mod Runs
pub mod Parsing
mod Tests
use ypf_fleet_fuel_distribut.Prelude.{
  ℕ, zero, suc, ◌-◌, Bool, true, false, ◌&&◌, ◌||◌, not, Option, none, some, List, [], ◌∷◌, leb,
  ◌==◌, if◌then◌else◌, length, get_elem?, set, HashMap, lookup, insert, erase,
}
use ypf_fleet_fuel_distribut.Float.{F32}
use ypf_fleet_fuel_distribut.Domain.{VerifyError}
use ypf_fleet_fuel_distribut.Text.{Text, split_whitespace, parse_unsigned, max_u64}
use ypf_fleet_fuel_distribut.Text.Attempts.{Attempt, err, ok, ◌>>=◌, or_error}

pub data StationToNodeMsg : Type 0 where
  charge_request : (account_id card_id : ℕ) (amount : F32) (request_id : ℕ) → StationToNodeMsg
  disconnect_node connect_node : StationToNodeMsg

-- The text of a debug message is not modelled.
pub data NodeToStationMsg : Type 0 where
  charge_result : (request_id : ℕ) (allowed : Bool) (error : Option VerifyError) → NodeToStationMsg
  debug : NodeToStationMsg

pub record PumpRequest : Type 0 where
  pub pump_id : ℕ
  pub account_id : ℕ
  pub card_id : ℕ
  pub amount : F32
  pub request_id : ℕ

pub record ParsedCommand : Type 0 where
  pub pump_id : ℕ
  pub account_id : ℕ
  pub card_id : ℕ
  pub amount : F32

-- Why a command is refused.
pub data CommandError : Type 0 where
  wrong_token_count : (count : ℕ) → CommandError
  invalid_pump_id invalid_account_id invalid_card_id invalid_amount : (token : Text) → CommandError
  pump_out_of_range : (pump_id last : ℕ) → CommandError
  pump_busy : (pump_id request_id : ℕ) → CommandError

-- The locals of `run_station_simulator`: for each pump its request, and the requests by id.
pub record Pumps : Type 0 where
  pub in_flight_by_pump : List (Option ℕ)
  pub requests : HashMap PumpRequest

abbrev pub all_idle : ℕ → List (Option ℕ)
all_idle zero = []
all_idle (suc n) = none ∷ all_idle n

unfoldable pub initial : ℕ → Pumps
initial num_pumps = record { in_flight_by_pump = all_idle num_pumps; requests = [] }

-- The test of a pump's id against the number of pumps.
abbrev pub check_range : (num_pumps pump_id : ℕ) → Attempt CommandError ℕ
check_range num_pumps pump_id =
    if leb num_pumps pump_id
    then err (CommandError.pump_out_of_range pump_id (num_pumps - 1))
    else ok pump_id

-- `parse_command` on the tokens of a line.
unfoldable pub parse_tokens :
    (Text → Option F32) → (num_pumps : ℕ) → List Text → Attempt CommandError ParsedCommand
parse_tokens read_amount num_pumps (t0 ∷ t1 ∷ t2 ∷ t3 ∷ []) = do
  pump_id ← or_error (parse_unsigned max_u64 t0) (CommandError.invalid_pump_id t0)
  pump_id ← check_range num_pumps pump_id
  account_id ← or_error (parse_unsigned max_u64 t1) (CommandError.invalid_account_id t1)
  card_id ← or_error (parse_unsigned max_u64 t2) (CommandError.invalid_card_id t2)
  amount ← or_error (read_amount t3) (CommandError.invalid_amount t3)
  ok (record { pump_id = pump_id; account_id = account_id; card_id = card_id; amount = amount })
parse_tokens read_amount num_pumps tokens = err (CommandError.wrong_token_count (length tokens))

unfoldable pub parse_command :
    (Text → Option F32) → (num_pumps : ℕ) → Text → Attempt CommandError ParsedCommand
unfolding parse_tokens
parse_command read_amount num_pumps line =
    parse_tokens read_amount num_pumps (split_whitespace line)

-- `in_flight_by_pump.contains(&Some(id))`
abbrev pub is_in_flight : ℕ → List (Option ℕ) → Bool
is_in_flight id [] = false
is_in_flight id (none ∷ slots) = is_in_flight id slots
is_in_flight id (some busy ∷ slots) = id == busy || is_in_flight id slots

-- `requests.contains_key(&id)`
abbrev pub has_request : ℕ → HashMap PumpRequest → Bool
has_request id requests = elim (lookup id requests) [ none ↦ false | some _ ↦ true ]

-- Whether the loop of `handle_user_command` takes a candidate.
abbrev pub is_usable : Pumps → ℕ → Bool
is_usable s candidate =
    not (candidate == 0)
    && not (has_request candidate s.requests)
    && not (is_in_flight candidate s.in_flight_by_pump)

-- The loop that draws a request id: nothing, where no drawn number is usable.
unfoldable pub choose_request_id : Pumps → List ℕ → Option ℕ
choose_request_id s [] = none
choose_request_id s (candidate ∷ draws) =
    let later = choose_request_id s draws in if is_usable s candidate then some candidate else later

pub data CommandOutcome : Type 0 where
  rejected : (reason : CommandError) → CommandOutcome
  created : (pumps : Pumps) (request_id : ℕ) → CommandOutcome
  -- the loop goes on after all the draws
  still_drawing panicked : CommandOutcome

abbrev request_of : ParsedCommand → ℕ → PumpRequest
request_of parsed request_id = record {
  pump_id = parsed.pump_id;
  account_id = parsed.account_id;
  card_id = parsed.card_id;
  amount = parsed.amount;
  request_id = request_id;
}

-- Registers the request and marks the pump as busy.
unfoldable pub register : Pumps → ParsedCommand → ℕ → CommandOutcome
register s parsed request_id = elim (set s.in_flight_by_pump parsed.pump_id (some request_id)) [
  | none ↦ panicked
  | some slots ↦
      created
        (record {
          in_flight_by_pump = slots;
          requests = insert request_id (request_of parsed request_id) s.requests;
        })
        request_id
]

-- `handle_user_command` on what is parsed.
unfoldable pub begin_request : Pumps → List ℕ → ParsedCommand → CommandOutcome
begin_request s draws parsed = elim (get_elem? s.in_flight_by_pump parsed.pump_id) [
  | none ↦ panicked
  | some (some existing) ↦ rejected (CommandError.pump_busy parsed.pump_id existing)
  | some none ↦ elim (choose_request_id s draws) [
    | none ↦ still_drawing
    | some request_id ↦ register s parsed request_id
  ]
]

unfoldable pub handle_user_command :
    (Text → Option F32) → (num_pumps : ℕ) → Pumps → List ℕ → Text → CommandOutcome
handle_user_command read_amount num_pumps s draws line =
    elim (parse_command read_amount num_pumps line) [
      | err reason ↦ rejected reason
      | ok parsed ↦ begin_request s draws parsed
    ]

-- What the simulator prints.
pub data Notice : Type 0 where
  request_sent charge_ok : (req : PumpRequest) → Notice
  charge_denied : (req : PumpRequest) (error : Option VerifyError) → Notice
  unknown_request lost_request : (request_id : ℕ) → Notice
  input_error : (reason : CommandError) → Notice
  help node_debug send_failed read_failed : Notice

pub data EventOutcome : Type 0 where
  handled : (pumps : Pumps) (notice : Notice) → EventOutcome
  panicked : EventOutcome

abbrev answer_notice : PumpRequest → Bool → Option VerifyError → Notice
answer_notice req allowed error =
    if allowed then Notice.charge_ok req else Notice.charge_denied req error

unfoldable pub handle_node_event : Pumps → NodeToStationMsg → EventOutcome
handle_node_event s (NodeToStationMsg.charge_result request_id allowed error) =
    elim (lookup request_id s.requests) [
      | none ↦ handled s (Notice.unknown_request request_id)
      | some req ↦ elim (set s.in_flight_by_pump req.pump_id none) [
        | none ↦ EventOutcome.panicked
        | some slots ↦
            handled (record { in_flight_by_pump = slots; requests = erase request_id s.requests })
              (answer_notice req allowed error)
      ]
    ]
handle_node_event s NodeToStationMsg.debug = handled s Notice.node_debug
