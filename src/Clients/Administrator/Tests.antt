-- ===== src/Clients/Administrator/Tests.antt =====
-- A dialogue of the administrator of client/src/administrator/.
use ypf_fleet_fuel_distribut.Prelude.{◌≡◌, refl, true, Option, some, List, [], ◌∷◌, ◌++◌, All}
use ypf_fleet_fuel_distribut.Float.{F32, fgt}
use ypf_fleet_fuel_distribut.Domain.{
  SocketAddr, Operation, Message, OperationResult, AccountQueryResult, LimitResult,
}
use ypf_fleet_fuel_distribut.Text.{
  Text, codes, same_text, is_whitespace, split_whitespace, words_from, trim, trim_start, trim_end,
  parse_digits, parse_unsigned, eq_ignore_ascii_case,
}
use ypf_fleet_fuel_distribut.Text.Attempts.{ok}
use ypf_fleet_fuel_distribut.Clients.Administrator.{
  AdminCommand, Administrator, LineError, to_string, parse_limit_card, parse_bill, parse_words,
  parse_line_to_command, build_operation, Report, handle_op_result,
}
use ypf_fleet_fuel_distribut.Clients.Administrator.Session.{
  Received, message, after_result, await_response, handle_command, read, request, report,
  line_error, ends, exited, handle_admin_line, run_session,
}
use ypf_fleet_fuel_distribut.Clients.Administrator.Requests.{IsOwnRequest, session_requests_own}
use ypf_fleet_fuel_distribut.Clients.Administrator.Reports.{command_reports_own_result}

-- Every amount is 10.0.
abbrev read_ten : Text → Option F32
read_ten token = some 0x41200000

abbrev admin : Administrator
admin = record {
  bind_addr = SocketAddr.v4 127 0 0 1 9200;
  target_node = SocketAddr.v4 127 0 0 1 9001;
  account_id = 7;
  next_req_id = 1;
}

abbrev limit_line : Text
limit_line = codes "limit-card 12 10.0"

limit_line_parses :
    parse_line_to_command read_ten limit_line 7 ≡ ok (AdminCommand.limit_card 7 12 0x41200000)
unfolding parse_line_to_command parse_words parse_limit_card same_text split_whitespace words_from
    is_whitespace parse_unsigned parse_digits
limit_line_parses = refl

bill_of_a_period :
    parse_line_to_command read_ten (codes "bill 2025-é") 7
    ≡ ok (AdminCommand.bill 7 (some (codes "2025-" ++ 0xC3 ∷ 0xA9 ∷ [])))
unfolding parse_line_to_command parse_words parse_bill to_string same_text split_whitespace
    words_from is_whitespace
bill_of_a_period = refl

abbrev limited : OperationResult
limited = OperationResult.limit_card LimitResult.ok

-- A response to another request, then the one to the first.
abbrev inbox : List Received
inbox =
    message (Message.response 9 limited)
    ∷ message (Message.ack 3)
    ∷ message (Message.response 1 limited)
    ∷ []

dialogue :
    run_session read_ten admin
      (read (codes " limit-card 12 10.0") true
        ∷ read (codes "pay") true
        ∷ read (codes "Exit") true
        ∷ [])
      inbox
    ≡ ends
        (request (
            Message.request 1
              (Operation.limit_card 7 12 (some 0x41200000))
              (SocketAddr.v4 127 0 0 1 9200))
          ∷ report Report.limit_card_ok
          ∷ line_error (LineError.unknown_command (codes "pay"))
          ∷ [])
        exited
unfolding run_session handle_admin_line handle_command build_operation fgt await_response
    handle_op_result trim trim_start trim_end eq_ignore_ascii_case parse_line_to_command parse_words
    parse_limit_card same_text split_whitespace words_from is_whitespace parse_unsigned parse_digits
dialogue = refl

session_requests_own_example :
    All
      (IsOwnRequest 7 (SocketAddr.v4 127 0 0 1 9200))
      (run_session read_ten admin (read limit_line true ∷ []) inbox).events
session_requests_own_example = session_requests_own read_ten admin (read limit_line true ∷ []) inbox

limit_operation :
    build_operation admin (AdminCommand.limit_card 7 12 0x41200000)
    ≡ some (Operation.limit_card 7 12 (some 0x41200000))
unfolding build_operation fgt
limit_operation = refl

command_reports_own_result_example :
    handle_command true admin (AdminCommand.limit_card 7 12 0x41200000) inbox ≡ record {
      admin = record admin { next_req_id = 2 };
      sent =
          Message.request 1
            (Operation.limit_card 7 12 (some 0x41200000))
            (SocketAddr.v4 127 0 0 1 9200)
          ∷ [];
      waiting = after_result (handle_op_result limited) [];
    }
command_reports_own_result_example =
    command_reports_own_result admin (AdminCommand.limit_card 7 12 0x41200000)
      (Operation.limit_card 7 12 (some 0x41200000))
      (message (Message.response 9 limited) ∷ message (Message.ack 3) ∷ []) [] limited
      limit_operation (refl, (tt, tt))

abbrev two_cards : AccountQueryResult
two_cards = record {
  account_id = 7;
  total_spent = 0x41200000;
  per_card_spent = (12, 0x41200000) ∷ (3, 0) ∷ [];
}
