-- ===== src/Wire/Deserialize/Messages.antt =====
-- common/src/network/serials/deserialization/message.rs
use ypf_fleet_fuel_distribut.Prelude.{
  ltb, ℕ, zero, suc, ◌+◌, ◌*◌, ◌^◌, List, [], ◌∷◌, length, leb, ◌==◌, if◌then◌else◌,
}
use ypf_fleet_fuel_distribut.Wire.Result.{
  ◌>>=◌, ◌>>◌, Result, ok, err, panic, guard, invalid_protocol, invalid_data,
}
use ypf_fleet_fuel_distribut.Domain.{SocketAddr, Message}
use ypf_fleet_fuel_distribut.Wire.Bytes.{slice_from}
use ypf_fleet_fuel_distribut.Wire.Protocol.{
  msg_type_request, msg_type_log, msg_type_ack, msg_type_join, msg_type_cluster_view,
  msg_type_cluster_update, msg_type_response, msg_type_election, msg_type_election_ok,
  msg_type_coordinator, msg_type_role_query, op_id_srl_len, socket_addr_len, node_id_srl_len,
  member_srl_len, vec_len_len,
}
use ypf_fleet_fuel_distribut.Wire.Deserialize.{
  read_be, deserialize_socket_address_srl, deserialize_vec_len, deserialize_database_snapshot,
}
use ypf_fleet_fuel_distribut.Wire.Deserialize.Ops.{deserialize_operation}
use ypf_fleet_fuel_distribut.Wire.Deserialize.Results.{deserialize_operation_result}

unfoldable pub deserialize_op_id : List ℕ → Result ℕ
unfolding read_be
deserialize_op_id payload = do
  guard (leb op_id_srl_len (length payload)) invalid_protocol
  read_be 4 payload

-- A node's id and its address.
unfoldable pub deserialize_member : List ℕ → Result (ℕ × SocketAddr)
deserialize_member payload = do
  id ← read_be node_id_srl_len payload
  addr ← deserialize_socket_address_srl (← slice_from node_id_srl_len payload)
  ok (id, addr)

unfoldable pub deserialize_coordinator_message : List ℕ → Result Message
deserialize_coordinator_message payload = do
  leader_id ← read_be node_id_srl_len payload
  leader_addr ← deserialize_socket_address_srl (← slice_from node_id_srl_len payload)
  ok (Message.coordinator leader_id leader_addr)

unfoldable pub deserialize_election_message : List ℕ → Result Message
deserialize_election_message payload = do
  candidate_id ← read_be node_id_srl_len payload
  candidate_addr ← deserialize_socket_address_srl (← slice_from node_id_srl_len payload)
  ok (Message.election candidate_id candidate_addr)

unfoldable pub deserialize_election_ok_message : List ℕ → Result Message
deserialize_election_ok_message payload = do
  responder_id ← read_be node_id_srl_len payload
  ok (Message.election_ok responder_id)

unfoldable pub deserialize_role_query_message : List ℕ → Result Message
deserialize_role_query_message payload = do
  addr ← deserialize_socket_address_srl payload
  ok (Message.role_query addr)

unfoldable pub deserialize_response_message : List ℕ → Result Message
deserialize_response_message payload = do
  req_id ← deserialize_op_id payload
  op_result ← deserialize_operation_result (← slice_from op_id_srl_len payload)
  ok (Message.response req_id op_result)

unfoldable pub deserialize_request_message : List ℕ → Result Message
deserialize_request_message payload = do
  op_id ← deserialize_op_id payload
  addr ← deserialize_socket_address_srl (← slice_from op_id_srl_len payload)
  op ← deserialize_operation (← slice_from (op_id_srl_len + socket_addr_len) payload)
  ok (Message.request op_id op addr)

unfoldable pub deserialize_log_message : List ℕ → Result Message
deserialize_log_message payload = do
  op_id ← deserialize_op_id payload
  op ← deserialize_operation (← slice_from op_id_srl_len payload)
  ok (Message.log op_id op)

unfoldable pub deserialize_ack_message : List ℕ → Result Message
deserialize_ack_message payload = do op_id ← deserialize_op_id payload; ok (Message.ack op_id)

unfoldable pub deserialize_cluster_update_message : List ℕ → Result Message
deserialize_cluster_update_message payload = do
  guard (leb member_srl_len (length payload)) invalid_protocol
  new_member ← deserialize_member payload
  ok (Message.cluster_update new_member)

unfoldable pub deserialize_join_message : List ℕ → Result Message
deserialize_join_message payload = do
  addr ← deserialize_socket_address_srl payload
  ok (Message.join addr)

-- The loop over the members, with what follows them.
unfoldable pub deserialize_members : ℕ → List ℕ → Result (List (ℕ × SocketAddr) × List ℕ)
deserialize_members zero payload = ok ([], payload)
deserialize_members (suc n) payload = do
  member ← deserialize_member payload
  (members, rest) ← deserialize_members n (← slice_from member_srl_len payload)
  ok (member ∷ members, rest)

-- `checked` is a product of sizes in a debug build: an overflow panics.
abbrev pub checked : ℕ → Result ℕ
checked product = if ltb product (2 ^ 64) then ok product else panic

unfoldable pub deserialize_cluster_view_message : List ℕ → Result Message
deserialize_cluster_view_message payload = do
  members_len ← deserialize_vec_len payload
  size ← checked (member_srl_len * members_len)
  guard (leb size (length payload)) invalid_protocol
  (members, at_leader) ← deserialize_members members_len (← slice_from vec_len_len payload)
  leader_addr ← deserialize_socket_address_srl at_leader
  database ← deserialize_database_snapshot (← slice_from socket_addr_len at_leader)
  ok (Message.cluster_view members leader_addr database)

-- `TryFrom<Vec<u8>> for Message`
unfoldable pub deserialize_message : List ℕ → Result Message
unfolding deserialize_request_message deserialize_log_message deserialize_ack_message
    deserialize_join_message deserialize_cluster_view_message deserialize_cluster_update_message
    deserialize_response_message deserialize_role_query_message deserialize_coordinator_message
    deserialize_election_message deserialize_election_ok_message
deserialize_message [] = panic
deserialize_message (b ∷ payload) =
    if b == msg_type_request
    then deserialize_request_message payload
    else if b == msg_type_log
    then deserialize_log_message payload
    else if b == msg_type_ack
    then deserialize_ack_message payload
    else if b == msg_type_join
    then deserialize_join_message payload
    else if b == msg_type_cluster_view
    then deserialize_cluster_view_message payload
    else if b == msg_type_cluster_update
    then deserialize_cluster_update_message payload
    else if b == msg_type_response
    then deserialize_response_message payload
    else if b == msg_type_role_query
    then deserialize_role_query_message payload
    else if b == msg_type_coordinator
    then deserialize_coordinator_message payload
    else if b == msg_type_election
    then deserialize_election_message payload
    else if b == msg_type_election_ok
    then deserialize_election_ok_message payload
    else err invalid_data
