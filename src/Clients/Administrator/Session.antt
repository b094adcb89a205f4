-- ===== src/Clients/Administrator/Session.antt =====
-- The dialogue of the administrator: `handle_command` of client/src/administrator/administrator.rs and
-- the loop of `async_main` in main.rs.
use ypf_fleet_fuel_distribut.Prelude.{
  ℕ, ◌+◌, ◌%◌, ◌^◌, Bool, ◌||◌, Option, none, some, List, [], ◌∷◌, ◌++◌, ◌==◌, if◌then◌else◌,
}
use ypf_fleet_fuel_distribut.Float.{F32}
use ypf_fleet_fuel_distribut.Domain.{Message}
use ypf_fleet_fuel_distribut.Text.{Text, codes, is_empty, trim, eq_ignore_ascii_case}
use ypf_fleet_fuel_distribut.Text.Attempts.{err, ok}
use ypf_fleet_fuel_distribut.Clients.Administrator.{
  AdminCommand, Administrator, LineError, parse_line_to_command, build_operation, Report,
  handle_op_result,
}

-- What `connection.recv()` returns: a message, or an error.
pub data Received : Type 0 where
  message : Message → Received
  failure : Received

-- How the wait for a response ends, with the messages that are left.
pub data Waiting : Type 0 where
  reported : Report → (rest : List Received) → Waiting
  failed : (rest : List Received) → Waiting
  -- all messages were of others: it waits for more
  still_waiting panicked : Waiting

abbrev pub after_result : Option Report → List Received → Waiting
after_result none rest = panicked
after_result (some report) rest = reported report rest

-- The loop of `handle_command`.
unfoldable pub await_response : (req_id : ℕ) → List Received → Waiting
await_response req_id [] = still_waiting
await_response req_id (failure ∷ rest) = failed rest
await_response req_id (message (Message.response r op_result) ∷ rest) =
    let later = await_response req_id rest in
    if r == req_id then after_result (handle_op_result op_result) rest else later
await_response req_id (message other ∷ rest) = await_response req_id rest

-- The administrator after a command, the request that it sent, and how the command ended.
pub record CommandRun : Type 0 where
  pub admin : Administrator
  pub sent : List Message
  pub waiting : Waiting

-- `is_sent` says whether the send succeeds.
unfoldable pub handle_command : Bool → Administrator → AdminCommand → List Received → CommandRun
handle_command is_sent admin cmd inbox = elim (build_operation admin cmd) [
  | none ↦ record { admin = admin; sent = []; waiting = panicked }
  | some op ↦
      let req_id = admin.next_req_id in
      let next = record admin { next_req_id = (req_id + 1) % 2 ^ 32 } in
      if is_sent
      then record {
        admin = next;
        sent = Message.request req_id op admin.bind_addr ∷ [];
        waiting = await_response req_id inbox;
      }
      else record { admin = next; sent = []; waiting = failed inbox }
]

-- A read of stdin: a line, empty at the end of the input, and whether a send succeeds; or a failure.
pub data LineRead : Type 0 where
  read : (line : Text) (is_sent : Bool) → LineRead
  unreadable : LineRead

pub data SessionEvent : Type 0 where
  request : Message → SessionEvent
  report : Report → SessionEvent
  line_error : LineError → SessionEvent
  help command_failed : SessionEvent

pub data Ending : Type 0 where
  exited panicked : Ending
  -- it waits for a line, or for a message
  reads_on waits_on : Administrator → Ending

pub record Session : Type 0 where
  pub events : List SessionEvent
  pub ending : Ending

abbrev pub ends : List SessionEvent → Ending → Session
ends events ending = record { events = events; ending = ending }

abbrev pub preceded : List SessionEvent → Session → Session
preceded events s = record s { events = events ++ s.events }

abbrev pub sent_events : List Message → List SessionEvent
sent_events [] = []
sent_events (msg ∷ msgs) = request msg ∷ sent_events msgs

-- What follows the wait: `next` is the session after it.
abbrev pub after_waiting :
    Administrator → Waiting → (Administrator → List Received → Session) → Session
after_waiting admin (reported r rest) next = preceded (report r ∷ []) (next admin rest)
after_waiting admin (failed rest) next = preceded (command_failed ∷ []) (next admin rest)
after_waiting admin still_waiting next = ends [] (waits_on admin)
after_waiting admin Waiting.panicked next = ends [] Ending.panicked

-- What follows a command.
abbrev pub after_command : CommandRun → (Administrator → List Received → Session) → Session
after_command run next = preceded (sent_events run.sent) (after_waiting run.admin run.waiting next)

-- One line without the white space around it.
unfoldable pub handle_admin_line :
    (Text → Option F32)
    → Administrator
    → (line : Text) → Bool
    → List Received
    → (Administrator → List Received → Session)
    → Session
handle_admin_line read_amount admin line is_sent inbox next =
    if is_empty line
    then next admin inbox
    else if eq_ignore_ascii_case line (codes "exit") || eq_ignore_ascii_case line (codes "quit")
    then ends [] exited
    else if eq_ignore_ascii_case line (codes "help")
    then preceded (help ∷ []) (next admin inbox)
    else elim (parse_line_to_command read_amount line admin.account_id) [
      | ok cmd ↦ after_command (handle_command is_sent admin cmd inbox) next
      | err reason ↦ preceded (line_error reason ∷ []) (next admin inbox)
    ]

-- The loop of `async_main`, over the reads of stdin and the messages that arrive.
unfoldable pub run_session :
    (Text → Option F32) → Administrator → List LineRead → List Received → Session
run_session read_amount admin [] inbox = ends [] (reads_on admin)
run_session read_amount admin (unreadable ∷ reads) inbox = ends [] exited
run_session read_amount admin (read line is_sent ∷ reads) inbox =
    handle_admin_line read_amount admin (trim line) is_sent inbox
      (λ next rest. run_session read_amount next reads rest)
