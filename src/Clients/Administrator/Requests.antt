-- ===== src/Clients/Administrator/Requests.antt =====
-- The requests of a whole session of client/src/administrator/main.rs.
use ypf_fleet_fuel_distribut.Prelude.{
  ℕ, ◌≡◌, refl, inl, inr, Bool, true, false, ◌||◌, Option, some, List, [], ◌∷◌, if◌then◌else◌, All,
  All-append,
}
use ypf_fleet_fuel_distribut.Float.{F32}
use ypf_fleet_fuel_distribut.Domain.{SocketAddr, Operation, Message}
use ypf_fleet_fuel_distribut.Text.{Text, codes, is_empty, trim, eq_ignore_ascii_case}
use ypf_fleet_fuel_distribut.Text.Attempts.{err, ok, Attempt-cases}
use ypf_fleet_fuel_distribut.Clients.Administrator.{
  AdminCommand, Administrator, parse_line_to_command, build_operation,
}
use ypf_fleet_fuel_distribut.Clients.Administrator.Session.{
  Received, Waiting, reported, failed, still_waiting, handle_command, LineRead, read, unreadable,
  SessionEvent, request, line_error, help, Session, ends, preceded, sent_events, exited,
  after_waiting, after_command, handle_admin_line, run_session,
}
use ypf_fleet_fuel_distribut.Clients.Administrator.Operations.{
  IsOwnOperation, command_line_builds_operation,
}

-- A request of the administrator at `addr` of account `id`.
abbrev pub IsOwnRequest : (id : ℕ) (addr : SocketAddr) → SessionEvent → Type 0
IsOwnRequest id addr (request (Message.request req_id op client)) =
    (client ≡ addr) × IsOwnOperation id op
IsOwnRequest id addr (request other) = ⊥
IsOwnRequest id addr _ = Unit {0}

-- The administrator at `addr` of account `id`.
abbrev IsAdministrator : (id : ℕ) (addr : SocketAddr) → Administrator → Type 0
IsAdministrator id addr admin = (admin.account_id ≡ id) × (admin.bind_addr ≡ addr)

module _ (id : ℕ) (addr : SocketAddr) where
  abbrev IsOwnNext : (Administrator → List Received → Session) → Type 0
  IsOwnNext next =
      (admin : Administrator) (inbox : List Received)
      → IsAdministrator id addr admin
      → All (IsOwnRequest id addr) (next admin inbox).events

  waited_own :
      (admin : Administrator) (waiting : Waiting) (next : Administrator → List Received → Session)
      → IsAdministrator id addr admin
      → IsOwnNext next
      → All (IsOwnRequest id addr) (after_waiting admin waiting next).events
  waited_own admin (reported r rest) next is_admin later = (tt, later admin rest is_admin)
  waited_own admin (failed rest) next is_admin later = (tt, later admin rest is_admin)
  waited_own admin still_waiting next is_admin later = tt
  waited_own admin Waiting.panicked next is_admin later = tt

  command_own :
      (is_sent : Bool) (admin : Administrator) (cmd : AdminCommand) (op : Operation)
      (inbox : List Received)
      → build_operation admin cmd ≡ some op
      → IsOwnOperation admin.account_id op
      → IsAdministrator id addr admin
      → (IsAdministrator id addr (handle_command is_sent admin cmd inbox).admin)
        × All (IsOwnRequest id addr) (sent_events (handle_command is_sent admin cmd inbox).sent)
  unfolding handle_command
  command_own true admin cmd op inbox built own (is_id, is_addr) =
      rw (built, handle_command) ((is_id, is_addr), ((is_addr, rw (← is_id) own), tt))
  command_own false admin cmd op inbox built own is_admin =
      rw (built, handle_command) (is_admin, tt)

  parsed_own :
      (read_amount : Text → Option F32) (admin : Administrator) (line : Text) (cmd : AdminCommand)
      (is_sent : Bool) (inbox : List Received) (next : Administrator → List Received → Session)
      → parse_line_to_command read_amount line admin.account_id ≡ ok cmd
      → IsAdministrator id addr admin
      → IsOwnNext next
      → All
          (IsOwnRequest id addr)
          (after_command (handle_command is_sent admin cmd inbox) next).events
  parsed_own read_amount admin line cmd is_sent inbox next parsed is_admin later =
      let run = handle_command is_sent admin cmd inbox in
      let (op, built, own) = command_line_builds_operation read_amount admin line cmd parsed in
      let (same, sent) = command_own is_sent admin cmd op inbox built own is_admin in
      All-append (IsOwnRequest id addr) (sent_events run.sent)
        (after_waiting run.admin run.waiting next).events sent
        (waited_own run.admin run.waiting next same later)

  if_own :
      (test : Bool) (x y : Session)
      → All (IsOwnRequest id addr) x.events
      → All (IsOwnRequest id addr) y.events
      → All (IsOwnRequest id addr) (if test then x else y).events
  if_own true x y hx hy = hx
  if_own false x y hx hy = hy

  line_own :
      (read_amount : Text → Option F32) (admin : Administrator) (line : Text) (is_sent : Bool)
      (inbox : List Received) (next : Administrator → List Received → Session)
      → IsAdministrator id addr admin
      → IsOwnNext next
      → All
          (IsOwnRequest id addr)
          (handle_admin_line read_amount admin line is_sent inbox next).events
  unfolding handle_admin_line
  line_own read_amount admin line is_sent inbox next is_admin later =
      let is = λ (word : Text). eq_ignore_ascii_case line word in
      let on = next admin inbox in
      let command : Session = elim (parse_line_to_command read_amount line admin.account_id) [
        | ok cmd ↦ after_command (handle_command is_sent admin cmd inbox) next
        | err reason ↦ preceded (line_error reason ∷ []) on
      ] in
      let commanded : All (IsOwnRequest id addr) command.events =
        elim (Attempt-cases (parse_line_to_command read_amount line admin.account_id)) [
          | inl (reason, refused) ↦ rw refused (tt, later admin inbox is_admin)
          | inr (cmd, parsed) ↦
              rw parsed
                (parsed_own read_amount admin line cmd is_sent inbox next parsed is_admin later)
        ] in
      let helped = preceded (help ∷ []) on in
      let after_help = if is (codes "help") then helped else command in
      let leaves = is (codes "exit") || is (codes "quit") in
      let after_leave = if leaves then ends [] exited else after_help in
      if_own (is_empty line) on after_leave (later admin inbox is_admin) (
        if_own leaves (ends [] exited) after_help tt
          (if_own (is (codes "help")) helped command (tt, later admin inbox is_admin) commanded))

  session_own :
      (read_amount : Text → Option F32) (admin : Administrator) (reads : List LineRead)
      (inbox : List Received)
      → IsAdministrator id addr admin
      → All (IsOwnRequest id addr) (run_session read_amount admin reads inbox).events
  unfolding run_session
  session_own read_amount admin [] inbox is_admin = tt
  session_own read_amount admin (unreadable ∷ reads) inbox is_admin = tt
  session_own read_amount admin (read line is_sent ∷ reads) inbox is_admin =
      line_own read_amount admin (trim line) is_sent inbox
        (λ next rest. run_session read_amount next reads rest) is_admin
        (λ next rest same. session_own read_amount next reads rest same)

-- Whatever is typed and whatever arrives, every request of a session carries the administrator's own
-- address, is on the account it was started with, and sets no limit but one greater than zero.
pub session_requests_own :
    (read_amount : Text → Option F32) (admin : Administrator) (reads : List LineRead)
    (inbox : List Received)
    → All
        (IsOwnRequest admin.account_id admin.bind_addr)
        (run_session read_amount admin reads inbox).events
session_requests_own read_amount admin reads inbox =
    session_own admin.account_id admin.bind_addr read_amount admin reads inbox (refl, refl)
