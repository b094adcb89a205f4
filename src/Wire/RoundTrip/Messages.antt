-- ===== src/Wire/RoundTrip/Messages.antt =====
-- Round trips of messages: serialization/message.rs and deserialization/message.rs.
use ypf_fleet_fuel_distribut.Wire.Deserialize.Messages.{
  checked, deserialize_op_id, deserialize_member, deserialize_coordinator_message,
  deserialize_election_message, deserialize_election_ok_message, deserialize_role_query_message,
  deserialize_response_message, deserialize_request_message, deserialize_log_message,
  deserialize_ack_message, deserialize_cluster_update_message, deserialize_join_message,
  deserialize_cluster_view_message, deserialize_message,
}
use ypf_fleet_fuel_distribut.Wire.RoundTrip.Members.{
  member_bytes, members_bytes, member-write, members-write, member-read, members-read,
  member_length, view_long_enough,
}
use ypf_fleet_fuel_distribut.Wire.Deserialize.{read_be, deserialize_database_snapshot}
use ypf_fleet_fuel_distribut.Wire.Result.{◌>>=◌, ok}
use ypf_fleet_fuel_distribut.Prelude.{
  append-nil, ◌∙◌, sym, ℕ, ◌*◌, ◌^◌, ◌<◌, ◌≡◌, refl, ap, List, [], ◌∷◌, ◌++◌, All, length, arith,
}
use ypf_fleet_fuel_distribut.Domain.{
  OperationResult, DatabaseSnapshot, Operation, SocketAddr, Message,
}
use ypf_fleet_fuel_distribut.Wire.Bytes.{to_be_bytes, from-to_be_bytes, slice_from, IsU32, IsU64}
use ypf_fleet_fuel_distribut.Wire.Protocol.{
  msg_type_request, msg_type_log, msg_type_join, msg_type_cluster_view, msg_type_cluster_update,
  msg_type_response, msg_type_role_query, msg_type_coordinator, msg_type_election, member_srl_len,
}
use ypf_fleet_fuel_distribut.Wire.Serialize.Messages.{serialize_message}
use ypf_fleet_fuel_distribut.Wire.Deserialize.Ops.{deserialize_operation}
use ypf_fleet_fuel_distribut.Wire.Deserialize.Results.{deserialize_operation_result}
use ypf_fleet_fuel_distribut.Wire.RoundTrip.{IsWireAddr, IsWireMember, IsWireMessage, RoundTrips}
use ypf_fleet_fuel_distribut.Wire.RoundTrip.Parts.{
  address_bytes, address-write, address-read, address-read_end, address-skip, u64-read, u64-skip,
  u32-skip, vec_len-read, snapshot-RoundTrips,
}
use ypf_fleet_fuel_distribut.Wire.RoundTrip.Ops.{op-RoundTrips}
use ypf_fleet_fuel_distribut.Wire.RoundTrip.Results.{result-RoundTrips}

op_id-read : (v : ℕ) (rest : List ℕ) → IsU32 v → deserialize_op_id (to_be_bytes 4 v ++ rest) ≡ ok v
unfolding deserialize_op_id to_be_bytes
op_id-read v rest h = rw (from-to_be_bytes 4 v h) (ground arith)

id_and_address :
    (id : ℕ) (addr : SocketAddr)
    → IsWireMember (id, addr)
    → (deserialize_coordinator_message (to_be_bytes 8 id ++ address_bytes addr)
        ≡ ok (Message.coordinator id addr))
      × (deserialize_election_message (to_be_bytes 8 id ++ address_bytes addr)
          ≡ ok (Message.election id addr))
unfolding deserialize_coordinator_message deserialize_election_message
id_and_address id addr h = (
  rw (
    u64-read id (address_bytes addr) h.0,
    u64-skip id (address_bytes addr),
    address-read_end addr h.1,
  ),
  rw (
    u64-read id (address_bytes addr) h.0,
    u64-skip id (address_bytes addr),
    address-read_end addr h.1,
  ),
)

checked_product : (product : ℕ) → product < 2 ^ 64 → checked product ≡ ok product
checked_product product h = ground arith

view-read :
    (members : List (ℕ × SocketAddr)) (leader_addr : SocketAddr) (database : DatabaseSnapshot)
    (bytes : List ℕ)
    → All IsWireMember members
    → member_srl_len * length members < 2 ^ 64
    → IsWireAddr leader_addr
    → deserialize_database_snapshot bytes ≡ ok database
    → deserialize_cluster_view_message (
        to_be_bytes 8 (length members)
        ++ (members_bytes members ++ (address_bytes leader_addr ++ bytes)))
      ≡ ok (Message.cluster_view members leader_addr database)
unfolding deserialize_cluster_view_message
view-read members leader_addr database bytes hm hl ha hd =
    let at_leader = address_bytes leader_addr ++ bytes in
    rw (
      vec_len-read (length members) (members_bytes members ++ at_leader) (omega (arith, hl)),
      checked_product (member_srl_len * length members) hl,
      view_long_enough members at_leader hm,
      u64-skip (length members) (members_bytes members ++ at_leader),
      members-read members at_leader hm,
      address-read leader_addr bytes ha,
      address-skip leader_addr bytes ha,
      hd,
    )

request-skip :
    (req_id : ℕ) (addr : SocketAddr) (bytes : List ℕ)
    → IsWireAddr addr
    → slice_from 10 (to_be_bytes 4 req_id ++ (address_bytes addr ++ bytes)) ≡ ok bytes
unfolding slice_from to_be_bytes address_bytes
request-skip req_id (SocketAddr.v4 a b c d port) bytes h = refl
request-skip req_id (SocketAddr.v6 ip port) bytes h = absurd h

request-read :
    (req_id : ℕ) (op : Operation) (addr : SocketAddr) (bytes : List ℕ)
    → IsU32 req_id
    → IsWireAddr addr
    → deserialize_operation bytes ≡ ok op
    → deserialize_request_message (to_be_bytes 4 req_id ++ (address_bytes addr ++ bytes))
      ≡ ok (Message.request req_id op addr)
unfolding deserialize_request_message
request-read req_id op addr bytes hr ha ho = rw (
  op_id-read req_id (address_bytes addr ++ bytes) hr,
  u32-skip req_id (address_bytes addr ++ bytes),
  address-read addr bytes ha,
  request-skip req_id addr bytes ha,
  ho,
)

log-read :
    (op_id : ℕ) (op : Operation) (bytes : List ℕ)
    → IsU32 op_id
    → deserialize_operation bytes ≡ ok op
    → deserialize_log_message (to_be_bytes 4 op_id ++ bytes) ≡ ok (Message.log op_id op)
unfolding deserialize_log_message
log-read op_id op bytes h ho = rw (op_id-read op_id bytes h, u32-skip op_id bytes, ho)

response-read :
    (req_id : ℕ) (r : OperationResult) (bytes : List ℕ)
    → IsU32 req_id
    → deserialize_operation_result bytes ≡ ok r
    → deserialize_response_message (to_be_bytes 4 req_id ++ bytes) ≡ ok (Message.response req_id r)
unfolding deserialize_response_message
response-read req_id r bytes h hr = rw (op_id-read req_id bytes h, u32-skip req_id bytes, hr)

ack-read :
    (op_id : ℕ)
    → IsU32 op_id
    → deserialize_ack_message (to_be_bytes 4 op_id) ≡ ok (Message.ack op_id)
unfolding deserialize_ack_message
ack-read op_id h =
    ap (λ bytes. deserialize_op_id bytes >>= λ n. ok (Message.ack n))
      (sym (append-nil (to_be_bytes 4 op_id)))
    ∙ rw (op_id-read op_id [] h) refl

election_ok-read :
    (responder_id : ℕ)
    → IsU64 responder_id
    → deserialize_election_ok_message (to_be_bytes 8 responder_id)
      ≡ ok (Message.election_ok responder_id)
unfolding deserialize_election_ok_message read_be to_be_bytes
election_ok-read responder_id h =
    ap (λ n. ok (Message.election_ok n)) (from-to_be_bytes 8 responder_id h)

update-read :
    (m : ℕ × SocketAddr)
    → IsWireMember m
    → deserialize_cluster_update_message (member_bytes m) ≡ ok (Message.cluster_update m)
unfolding deserialize_cluster_update_message
update-read m h =
    rw
      (
        member_length m h,
        ap deserialize_member (sym (append-nil (member_bytes m))) ∙ member-read m [] h,
      )
      refl

-- A message, but the answer to a role query, is read back as it was written, if its addresses are
-- IPv4, its numbers have their machine widths, the bytes of a cluster view's members are fewer than
-- 2^64, and its operation, result or snapshot has a round trip, too.
pub message-RoundTrips :
    (m : Message) → IsWireMessage m → RoundTrips serialize_message deserialize_message m
unfolding serialize_message deserialize_message deserialize_join_message
    deserialize_role_query_message
message-RoundTrips (Message.request req_id op addr) h =
    let (bytes, write, read) = op-RoundTrips op h.1 in
    (
      msg_type_request ∷ (to_be_bytes 4 req_id ++ (address_bytes addr ++ bytes)),
      rw (address-write addr h.2, write) refl,
      request-read req_id op addr bytes h.0 h.2 read,
    )
message-RoundTrips (Message.response req_id op_result) h =
    let (bytes, write, read) = result-RoundTrips op_result h.1 in
    (
      msg_type_response ∷ (to_be_bytes 4 req_id ++ bytes),
      rw write refl,
      response-read req_id op_result bytes h.0 read,
    )
message-RoundTrips (Message.log op_id op) h =
    let (bytes, write, read) = op-RoundTrips op h.1 in
    (msg_type_log ∷ (to_be_bytes 4 op_id ++ bytes), rw write refl, log-read op_id op bytes h.0 read)
message-RoundTrips (Message.ack op_id) h = (_, refl, ack-read op_id h)
message-RoundTrips (Message.election candidate_id candidate_addr) h = (
  msg_type_election ∷ (to_be_bytes 8 candidate_id ++ address_bytes candidate_addr),
  rw (address-write candidate_addr h.1) refl,
  (id_and_address candidate_id candidate_addr h).1,
)
message-RoundTrips (Message.election_ok responder_id) h = (_, refl, election_ok-read responder_id h)
message-RoundTrips (Message.coordinator leader_id leader_addr) h = (
  msg_type_coordinator ∷ (to_be_bytes 8 leader_id ++ address_bytes leader_addr),
  rw (address-write leader_addr h.1) refl,
  (id_and_address leader_id leader_addr h).0,
)
message-RoundTrips (Message.join addr) h = (
  msg_type_join ∷ address_bytes addr,
  rw (address-write addr h) refl,
  rw (address-read_end addr h) refl,
)
message-RoundTrips (Message.cluster_view members leader_addr database) h =
    let (bytes, write, read) = snapshot-RoundTrips database h.3 in
    (
      msg_type_cluster_view
          ∷ (to_be_bytes 8 (length members)
              ++ (members_bytes members ++ (address_bytes leader_addr ++ bytes))),
      rw (address-write leader_addr h.2, write, members-write members h.0) refl,
      view-read members leader_addr database bytes h.0 h.1 h.2 read,
    )
message-RoundTrips (Message.cluster_update new_member) h = (
  msg_type_cluster_update ∷ member_bytes new_member,
  rw (member-write new_member h) refl,
  update-read new_member h,
)
message-RoundTrips (Message.role_query addr) h = (
  msg_type_role_query ∷ address_bytes addr,
  rw (address-write addr h) refl,
  rw (address-read_end addr h) refl,
)
message-RoundTrips (Message.role_response node_id role) h = absurd h
