-- ===== src/Nodes/Leader/Tests.antt =====
-- A leader at work: server/src/node/leader.rs.
use ypf_fleet_fuel_distribut.Nodes.Leader.Acks.{late_acks_ignored, run_acks}
use ypf_fleet_fuel_distribut.Prelude.{All, ℕ, ◌+◌, ◌≡◌, refl, true, false, none, [], ◌∷◌, arith}
use ypf_fleet_fuel_distribut.Domain.{
  SocketAddr, Operation, OperationResult, ChargeResult, LimitResult, Message,
}
use ypf_fleet_fuel_distribut.Nodes.Effects.{
  PendingOperation, send, execute, send_each, returned, panicked, no_change,
}
use ypf_fleet_fuel_distribut.Nodes.Leader.{
  Leader, handle_request, handle_operation_result, peers_of,
}
use ypf_fleet_fuel_distribut.Nodes.Leader.Requests.{
  request_executes_once, alone_second_request_panics,
}

abbrev node : ℕ → SocketAddr
node k = SocketAddr.v4 127 0 0 1 (9000 + k)

abbrev client : SocketAddr
client = SocketAddr.v4 127 0 0 1 7000

abbrev other_client : SocketAddr
other_client = SocketAddr.v4 127 0 0 1 7001

-- Member 2 of a cluster of five leads it.
abbrev leader : Leader
leader = record {
  id = 2;
  current_op_id = 4;
  address = node 2;
  cluster = (1, node 1) ∷ (2, node 2) ∷ (3, node 3) ∷ (4, node 4) ∷ (5, node 5) ∷ [];
  operations = [];
  is_offline = false;
  offline_queue = [];
  election_in_progress = false;
  election_start = none;
}

four_reached : All (λ (a : SocketAddr). true ≡ true) (peers_of 2 leader.cluster)
unfolding peers_of
four_reached = (refl, (refl, (refl, (refl, tt))))

abbrev charge : Operation
charge = Operation.charge 7 1 0x42480000 false

request_executes_once_example :
    ((handle_request (λ a. true) leader 9 charge client).1
      ≡ send_each (Message.log 4 charge) (peers_of 2 leader.cluster))
    × ((handle_request (λ a. true) leader 9 charge client).2 ≡ returned no_change)
    × ((handle_request (λ a. true) leader 9 charge client).0.current_op_id ≡ 5)
    × ((run_acks (handle_request (λ a. true) leader 9 charge client).0 4 3).1
        ≡ execute 4 charge ∷ [])
request_executes_once_example =
    request_executes_once (λ a. true) leader 9 3 charge client (omega arith) (omega arith)
      four_reached (omega arith)

-- Four acks for one operation of the cluster of five.
abbrev pending : PendingOperation
pending = record { op = charge; client_addr = client; ack_count = 0; request_id = 9 }

abbrev waiting : Leader
waiting = record leader { operations = (4, pending) ∷ [] }

-- One ack has arrived, and two members have left: one ack would be enough now.
abbrev left_over : PendingOperation
left_over = record pending { ack_count = 1 }

abbrev shrunk : Leader
shrunk = record leader {
  cluster = (1, node 1) ∷ (2, node 2) ∷ (3, node 3) ∷ [];
  operations = (4, left_over) ∷ [];
}

abbrev alone : Leader
alone = record leader { cluster = (2, node 2) ∷ [] }

abbrev limit : Operation
limit = Operation.limit_account 7 none

abbrev charged : OperationResult
charged = OperationResult.charge ChargeResult.ok

abbrev limited : OperationResult
limited = OperationResult.limit_account LimitResult.ok

abbrev both : Leader
both =
    (handle_request (λ a. true) (handle_request (λ a. true) alone 9 charge client).0 1 limit
      other_client).0

alone_second_request_panics_example :
    ((handle_request (λ a. true) alone 9 charge client).1 ≡ execute 4 charge ∷ [])
    × ((handle_request
          (λ a. true)
          (handle_request (λ a. true) alone 9 charge client).0
          1
          limit
          other_client).1
        ≡ execute 4 limit ∷ [])
    × ((handle_operation_result (λ a. true) (λ a. true) both 4 charge charged).1
        ≡ send (Message.response 1 charged) other_client ∷ [])
    × ((handle_operation_result
          (λ a. true)
          (λ a. true)
          (handle_operation_result (λ a. true) (λ a. true) both 4 charge charged).0
          4
          limit
          limited).2
        ≡ panicked)
alone_second_request_panics_example =
    alone_second_request_panics (λ a. true) (λ a. true) alone 9 1 7 1 0x42480000 limit client
      other_client charged limited refl (omega arith) refl refl

late_acks_ignored_example : (run_acks shrunk 4 2).1 ≡ []
late_acks_ignored_example = late_acks_ignored shrunk 4 2 left_over refl (omega arith) (omega arith)
