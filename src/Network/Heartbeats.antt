-- ===== src/Network/Heartbeats.antt =====
-- The task of a connection: `Handler::run` of common/src/network/handler/handler.rs, one `select!` at a
-- time. Times are in milliseconds; `can_write` says whether a write on the stream succeeds, and
-- `is_open` whether the channel to the node takes a message.
pub mod Silence
use ypf_fleet_fuel_distribut.Prelude.{ℕ, ◌-◌, Bool, false, List, [], ◌∷◌, ltb, if◌then◌else◌}

abbrev pub heartbeat_timeout : ℕ
heartbeat_timeout = 10000

pub data MessageKind : Type 0 where
  heartbeat_request heartbeat_reply node_message : MessageKind

pub data HandlerError : Type 0 where
  channel_closed connection_lost invalid_message : HandlerError

-- `AppResult<()>` of a branch.
pub data Outcome : Type 0 where
  fine : Outcome
  error : HandlerError → Outcome

-- The branch of the `select!` that is taken.
pub data Branch : Type 0 where
  -- `sender.send()`
  sent : Outcome → Branch
  -- `receiver.recv()`: a kind of message or an error
  received : MessageKind → Branch
  not_received : HandlerError → Branch
  -- the sleep is over
  heartbeat_due : Branch

pub record TaskEvent : Type 0 where
  pub branch : Branch
  pub can_write : Bool
  pub is_open : Bool
  -- when the branch is done, and when the timeout is tested
  pub handled_at : ℕ
  pub tested_at : ℕ

pub data TaskState : Type 0 where
  running : (last_seen : ℕ) → TaskState
  -- it ends, and whether the node is told that the connection is lost
  ended : (is_reported : Bool) → TaskState

-- The result of a branch, and when the peer was last seen.
pub data BranchResult : Type 0 where
  result : Outcome → (last_seen : ℕ) → BranchResult
  -- `?` in the branch ends the task
  returned : BranchResult

abbrev written : Bool → Outcome
written can_write = if can_write then fine else error connection_lost

-- `Handler::handle_recv_result`
unfoldable pub handle_recv_result : Bool → (now : ℕ) → (last_seen : ℕ) → MessageKind → BranchResult
handle_recv_result can_write now last_seen heartbeat_request = result (written can_write) last_seen
handle_recv_result can_write now last_seen heartbeat_reply = result fine now
handle_recv_result can_write now last_seen node_message = result fine last_seen

unfoldable pub take_branch : TaskEvent → (last_seen : ℕ) → BranchResult
unfolding handle_recv_result
take_branch e last_seen = elim e.branch [
  | sent outcome ↦ result outcome last_seen
  | received kind ↦ handle_recv_result e.can_write e.handled_at last_seen kind
  | not_received err ↦ result (error err) last_seen
  | heartbeat_due ↦ if e.can_write then result fine last_seen else returned
]

-- The match on the result, and the test of the timeout.
unfoldable pub after_branch : TaskEvent → BranchResult → TaskState
after_branch e returned = ended false
after_branch e (result fine last_seen) =
    if ltb heartbeat_timeout (e.tested_at - last_seen) then ended e.is_open else running last_seen
after_branch e (result (error channel_closed) last_seen) = ended false
after_branch e (result (error connection_lost) last_seen) = ended e.is_open
after_branch e (result (error invalid_message) last_seen) = ended false

unfoldable pub run_turn : TaskEvent → TaskState → TaskState
unfolding take_branch after_branch
run_turn e (running last_seen) = after_branch e (take_branch e last_seen)
run_turn e (ended is_reported) = ended is_reported

-- The loop of `Handler::run`, over the branches that are taken.
unfoldable pub run_handler : TaskState → List TaskEvent → TaskState
unfolding run_turn
run_handler s [] = s
run_handler s (e ∷ events) = run_handler (run_turn e s) events
