-- ===== src/Station/Runs.antt =====
-- Runs of `run_station_simulator` in common/src/station.rs.
use ypf_fleet_fuel_distribut.Prelude.{
  ℕ, zero, suc, ◌≡◌, ◌≢◌, refl, ap, some, Option, List, [], ◌∷◌, length, get_elem?,
}
use mathlib.Core.Path.{subst}
use ypf_fleet_fuel_distribut.Float.{F32}
use ypf_fleet_fuel_distribut.Text.{Text}
use ypf_fleet_fuel_distribut.Station.{Pumps, all_idle, initial}
use ypf_fleet_fuel_distribut.Station.Simulator.{
  SimulatorEvent, StationOutput, Turn, continues, stopped, step, behind, and_then, run_loop,
  run_station_simulator,
}
use ypf_fleet_fuel_distribut.Station.Invariant.{IsConsistent}
use ypf_fleet_fuel_distribut.Station.Board.{open_at}
use ypf_fleet_fuel_distribut.Station.Requests.{BoardMove, charges, IsSound}
use ypf_fleet_fuel_distribut.Station.Steps.{step-IsSound}

-- Where the tables agree, an event that the loop survives is a step of the abstract pumps, which see
-- the open request of each pump only: a result closes the request with its id and nothing else; any
-- other event leaves the open requests as they are and asks the node for no charge, or gives one idle
-- pump a request under an id that no pump has and sends the node that charge. The tables agree again.
pub event_moves_pumps :
    (read_amount : Text → Option F32) (n : ℕ) (s t : Pumps) (event : SimulatorEvent)
    (outputs : List StationOutput)
    → IsConsistent n s
    → step read_amount n s event ≡ continues t outputs
    → BoardMove event (open_at s) (open_at t) (charges outputs) × IsConsistent n t
event_moves_pumps read_amount n s t event outputs h e =
    let (agree, move, _) = subst (IsSound n event s) e (step-IsSound read_amount n s event h) in
    (move, agree)

-- The tables agree, or the run has ended by a command or is drawing an id; it has not panicked.
abbrev pub IsSafe : ℕ → Turn → Type 0
IsSafe n (continues t outputs) = IsConsistent n t
IsSafe n stopped = Unit {0}
IsSafe n Turn.still_drawing = Unit {0}
IsSafe n Turn.panicked = ⊥

behind-IsSafe :
    (n : ℕ) (outputs : List StationOutput) (turn : Turn)
    → IsSafe n turn
    → IsSafe n (behind outputs turn)
behind-IsSafe n outputs (continues t later) h = h
behind-IsSafe n outputs stopped h = h
behind-IsSafe n outputs Turn.still_drawing h = h
behind-IsSafe n outputs Turn.panicked h = h

and_then-IsSafe :
    (n : ℕ) (event : SimulatorEvent) (s : Pumps) (turn : Turn) (rest : Pumps → Turn)
    → IsSound n event s turn
    → ((t : Pumps) → IsConsistent n t → IsSafe n (rest t))
    → IsSafe n (and_then turn rest)
and_then-IsSafe n event s (continues t outputs) rest h later =
    behind-IsSafe n outputs (rest t) (later t h.0)
and_then-IsSafe n event s stopped rest h later = tt
and_then-IsSafe n event s Turn.still_drawing rest h later = tt
and_then-IsSafe n event s Turn.panicked rest h later = h

run_loop-IsSafe :
    (read_amount : Text → Option F32) (n : ℕ) (s : Pumps) (events : List SimulatorEvent)
    → IsConsistent n s
    → IsSafe n (run_loop read_amount n s events)
unfolding run_loop
run_loop-IsSafe read_amount n s [] h = h
run_loop-IsSafe read_amount n s (event ∷ events) h =
    and_then-IsSafe n event s (step read_amount n s event) (λ t. run_loop read_amount n t events)
      (step-IsSound read_amount n s event h) (λ t ht. run_loop-IsSafe read_amount n t events ht)

all_idle_lem : (n p : ℕ) (id : ℕ) → get_elem? (all_idle n) p ≢ some (some id)
all_idle_lem zero p id = λ e. cc
all_idle_lem (suc n) zero id = λ e. cc
all_idle_lem (suc n) (suc p) id = all_idle_lem n p id

length-all_idle : (n : ℕ) → length (all_idle n) ≡ n
length-all_idle zero = refl
length-all_idle (suc n) = ap suc (length-all_idle n)

pub initial-IsConsistent : (n : ℕ) → IsConsistent n (initial n)
unfolding initial
initial-IsConsistent n = record {
  unique = tt;
  size = length-all_idle n;
  busy = λ p id e. absurd (all_idle_lem n p id e);
  tracked = λ id req e. absurd (cc);
}

-- Whatever happens, the simulator never indexes a pump that there is not, and between two events its
-- two tables agree.
pub run_station_simulator-IsSafe :
    (read_amount : Text → Option F32) (n : ℕ) (events : List SimulatorEvent)
    → IsSafe n (run_station_simulator read_amount n events)
unfolding run_station_simulator
run_station_simulator-IsSafe read_amount zero events = tt
run_station_simulator-IsSafe read_amount (suc n) events =
    run_loop-IsSafe read_amount (suc n) (initial (suc n)) events (initial-IsConsistent (suc n))
