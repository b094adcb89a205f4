-- ===== src/Clients/Link/Tests.antt =====
-- A station and its client at work: common/src/station.rs and client/src/node_client/node_client.rs.
use ypf_fleet_fuel_distribut.Clients.Link.{Link, LinkStep, Reachable}
use ypf_fleet_fuel_distribut.Domain.{Operation, SocketAddr, Message}
use ypf_fleet_fuel_distribut.Prelude.{
  ℕ, ◌≡◌, ◌+◌, refl, Bool, true, Option, some, List, [], ◌∷◌, false,
}
use ypf_fleet_fuel_distribut.Float.{F32}
use ypf_fleet_fuel_distribut.Text.{
  Text, codes, is_whitespace, split_whitespace, words_from, trim, trim_start, trim_end,
  parse_digits, parse_unsigned, eq_ignore_ascii_case,
}
use ypf_fleet_fuel_distribut.Station.{
  StationToNodeMsg, PumpRequest, Pumps, initial, parse_tokens, parse_command, choose_request_id,
  register, begin_request, handle_user_command, Notice,
}
use ypf_fleet_fuel_distribut.Station.Simulator.{
  SimulatorEvent, line_read, StationOutput, continues, print, to_node, step, handle_line,
  after_command, send_request,
}
use ypf_fleet_fuel_distribut.Station.Requests.{requested, asked}
use ypf_fleet_fuel_distribut.Clients.NodeClient.{
  delivered, new_client, forward_or_enqueue_charge, forward_online_charge, try_nodes,
}
use ypf_fleet_fuel_distribut.Clients.NodeClient.Handlers.{handle_station_msg}
use ypf_fleet_fuel_distribut.Clients.Link.Places.{awaited, answered}
use ypf_fleet_fuel_distribut.Clients.Link.Steps.{each_request_in_one_place}

abbrev read_ten : Text → Option F32
read_ten token = some 0x41200000

abbrev constant_hash : SocketAddr → ℕ
constant_hash addr = 42

abbrev node : SocketAddr
node = SocketAddr.v4 127 0 0 1 9001

abbrev local : SocketAddr
local = SocketAddr.v4 127 0 0 1 9100

abbrev idle_link : Link
idle_link = record {
  pumps = initial 1;
  client = new_client local (node ∷ []);
  requests = [];
  results = [];
}

abbrev typed : SimulatorEvent
typed = line_read (codes "0 7 10 10.0") (5 ∷ []) true

abbrev request_5 : PumpRequest
request_5 = record {
  pump_id = 0;
  account_id = 7;
  card_id = 10;
  amount = 0x41200000;
  request_id = 5;
}

abbrev busy_pumps : Pumps
busy_pumps = record { in_flight_by_pump = some 5 ∷ []; requests = (5, request_5) ∷ [] }

abbrev asks : StationToNodeMsg
asks = StationToNodeMsg.charge_request 7 10 0x41200000 5

abbrev outputs : List StationOutput
outputs = print (Notice.request_sent request_5) ∷ to_node asks ∷ []

types_a_request : step read_ten 1 (initial 1) typed ≡ continues busy_pumps outputs
unfolding step handle_line trim trim_start trim_end is_whitespace eq_ignore_ascii_case after_command
    handle_user_command parse_command parse_tokens split_whitespace words_from parse_unsigned
    parse_digits begin_request choose_request_id register send_request initial
types_a_request = refl

abbrev all_accept : ℕ → Bool
all_accept k = true

abbrev asked_link : Link
asked_link = record idle_link { pumps = busy_pumps; requests = asks ∷ [] }

-- The operator has typed a request, and the client has sent it to the node.
abbrev waiting_link : Link
waiting_link = record asked_link {
  client = (handle_station_msg all_accept true idle_link.client asks).client;
  requests = [];
}

waits : handle_station_msg all_accept true idle_link.client asks ≡ record {
  client = waiting_link.client;
  effects = delivered (Message.request 5 (Operation.charge 7 10 0x41200000 false) local) node ∷ [];
  is_ok = true;
}
unfolding handle_station_msg forward_or_enqueue_charge forward_online_charge try_nodes new_client
waits = refl

waiting : Reachable read_ten constant_hash 1 local (node ∷ []) waiting_link
waiting =
    Reachable.after asked_link waiting_link
      (Reachable.after idle_link asked_link Reachable.start
        (LinkStep.operator_acts typed busy_pumps outputs refl types_a_request))
      (LinkStep.client_hears_station all_accept asks [] _ refl waits)

each_request_in_one_place_example :
    requested 5 busy_pumps ≡ asked 5 [] + awaited 5 waiting_link.client + answered 5 []
each_request_in_one_place_example =
    each_request_in_one_place read_ten constant_hash 1 local (node ∷ []) waiting_link waiting 5
