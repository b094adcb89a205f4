-- ===== src/Wire/Serialize/Messages.antt =====
-- common/src/network/serials/serialization/message.rs
use ypf_fleet_fuel_distribut.Wire.Result.{◌>>=◌, Result, ok}
use ypf_fleet_fuel_distribut.Prelude.{ℕ, List, [], ◌∷◌, ◌++◌, length}
use ypf_fleet_fuel_distribut.Domain.{SocketAddr, NodeRole, Message}
use ypf_fleet_fuel_distribut.Wire.Bytes.{to_be_bytes}
use ypf_fleet_fuel_distribut.Wire.Protocol.{
  msg_type_request, msg_type_log, msg_type_ack, msg_type_join, msg_type_cluster_view,
  msg_type_cluster_update, msg_type_response, msg_type_election, msg_type_election_ok,
  msg_type_coordinator, msg_type_role_query, msg_type_role_response, node_role_leader,
  node_role_replica, node_role_client,
}
use ypf_fleet_fuel_distribut.Wire.Serialize.{
  serialize_socket_address, serialize_database_snapshot, serialize_operation_result,
}
use ypf_fleet_fuel_distribut.Wire.Serialize.Ops.{serialize_operation}

unfoldable pub serialize_member : ℕ × SocketAddr → Result (List ℕ)
serialize_member (id, addr) = do
  addr_srl ← serialize_socket_address addr
  ok (to_be_bytes 8 id ++ addr_srl)

unfoldable pub serialize_members : List (ℕ × SocketAddr) → Result (List ℕ)
serialize_members [] = ok []
serialize_members (m ∷ members) = do
  member_srl ← serialize_member m
  rest ← serialize_members members
  ok (member_srl ++ rest)

unfoldable pub role_byte : NodeRole → ℕ
role_byte NodeRole.leader = node_role_leader
role_byte NodeRole.replica = node_role_replica
role_byte NodeRole.station = node_role_client

-- `From<Message> for Vec<u8>`
unfoldable pub serialize_message : Message → Result (List ℕ)
unfolding role_byte
serialize_message (Message.request req_id op addr) = do
  addr_srl ← serialize_socket_address addr
  op_srl ← serialize_operation op
  ok (msg_type_request ∷ (to_be_bytes 4 req_id ++ (addr_srl ++ op_srl)))
serialize_message (Message.log op_id op) = do
  op_srl ← serialize_operation op
  ok (msg_type_log ∷ (to_be_bytes 4 op_id ++ op_srl))
serialize_message (Message.ack op_id) = ok (msg_type_ack ∷ to_be_bytes 4 op_id)
serialize_message (Message.join addr) = do
  addr_srl ← serialize_socket_address addr
  ok (msg_type_join ∷ addr_srl)
serialize_message (Message.cluster_view members leader_addr database) = do
  leader_addr_srl ← serialize_socket_address leader_addr
  database_srl ← serialize_database_snapshot database
  members_srl ← serialize_members members
  ok (
      msg_type_cluster_view
      ∷ (to_be_bytes 8 (length members) ++ (members_srl ++ (leader_addr_srl ++ database_srl))))
serialize_message (Message.cluster_update new_member) = do
  member_srl ← serialize_member new_member
  ok (msg_type_cluster_update ∷ member_srl)
serialize_message (Message.response req_id op_result) = do
  op_result_srl ← serialize_operation_result op_result
  ok (msg_type_response ∷ (to_be_bytes 4 req_id ++ op_result_srl))
serialize_message (Message.role_query addr) = do
  addr_srl ← serialize_socket_address addr
  ok (msg_type_role_query ∷ addr_srl)
serialize_message (Message.role_response node_id role) =
    ok (msg_type_role_response ∷ (to_be_bytes 8 node_id ++ role_byte role ∷ []))
serialize_message (Message.coordinator leader_id leader_addr) = do
  leader_addr_srl ← serialize_socket_address leader_addr
  ok (msg_type_coordinator ∷ (to_be_bytes 8 leader_id ++ leader_addr_srl))
serialize_message (Message.election candidate_id candidate_addr) = do
  candidate_addr_srl ← serialize_socket_address candidate_addr
  ok (msg_type_election ∷ (to_be_bytes 8 candidate_id ++ candidate_addr_srl))
serialize_message (Message.election_ok responder_id) =
    ok (msg_type_election_ok ∷ to_be_bytes 8 responder_id)
