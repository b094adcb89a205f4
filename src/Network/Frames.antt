-- ===== src/Network/Frames.antt =====
-- The bytes on a stream: common/src/network/handler/sender.rs and receiver.rs, and
-- serials/handler_first_messages.rs. A stream is the list of the bytes that are still to be read.
pub mod Delivery
pub mod Limits
use ypf_fleet_fuel_distribut.Prelude.{
  ℕ, zero, suc, ◌%◌, ◌^◌, Option, none, some, List, [], ◌∷◌, ◌++◌, ◌==◌, if◌then◌else◌, length,
}
use ypf_fleet_fuel_distribut.Domain.{SocketAddr, Message}
use ypf_fleet_fuel_distribut.Wire.Result.{Error, Result, panic, err, ok, ◌>>=◌}
use ypf_fleet_fuel_distribut.Wire.Bytes.{to_be_bytes, from_be_bytes}
use ypf_fleet_fuel_distribut.Wire.Serialize.{serialize_socket_address}
use ypf_fleet_fuel_distribut.Wire.Serialize.Messages.{serialize_message}
use ypf_fleet_fuel_distribut.Wire.Deserialize.{deserialize_socket_address_srl}
use ypf_fleet_fuel_distribut.Wire.Deserialize.Messages.{deserialize_message}

abbrev pub heartbeat_request : ℕ
heartbeat_request = 0xFE

abbrev pub heartbeat_reply : ℕ
heartbeat_reply = 0xFF

abbrev pub msg_type_handler_first : ℕ
msg_type_handler_first = 0x69

-- The length, `as u16`, and the bytes.
unfoldable pub frame : List ℕ → List ℕ
unfolding to_be_bytes
frame bytes = to_be_bytes 2 (length bytes % 2 ^ 16) ++ bytes

-- What `StreamSender::send` writes for a message.
unfoldable pub write_message : Message → Result (List ℕ)
unfolding frame
write_message msg = do bytes ← serialize_message msg; ok (frame bytes)

unfoldable pub write_heartbeat_request : List ℕ
unfolding to_be_bytes
write_heartbeat_request = to_be_bytes 2 1 ++ heartbeat_request ∷ []

unfoldable pub write_heartbeat_reply : List ℕ
unfolding to_be_bytes
write_heartbeat_reply = to_be_bytes 2 1 ++ heartbeat_reply ∷ []

-- `stream.read_exact(..)` of `n` bytes: nothing, where the stream has fewer.
unfoldable pub read_exact : ℕ → List ℕ → Option (List ℕ × List ℕ)
read_exact zero stream = some ([], stream)
read_exact (suc n) [] = none
read_exact (suc n) (b ∷ stream) = elim (read_exact n stream) [
  | none ↦ none
  | some (bytes, rest) ↦ some (b ∷ bytes, rest)
]

pub data Incoming : Type 0 where
  -- the stream has ended, or more bytes have to arrive
  incomplete : Incoming
  request_beat reply_beat : (rest : List ℕ) → Incoming
  node_message : (msg : Message) (rest : List ℕ) → Incoming
  -- the bytes are no message: the error ends the handler
  invalid : (reason : Error) → Incoming
  panicked : Incoming

abbrev deserialized : Result Message → List ℕ → Incoming
deserialized (ok msg) rest = node_message msg rest
deserialized (err reason) rest = invalid reason
deserialized panic rest = panicked

-- The bytes of one frame.
unfoldable pub classify : List ℕ → List ℕ → Incoming
classify (b ∷ []) rest =
    if b == heartbeat_request
    then request_beat rest
    else if b == heartbeat_reply
    then reply_beat rest
    else deserialized (deserialize_message (b ∷ [])) rest
classify bytes rest = deserialized (deserialize_message bytes) rest

-- `StreamReceiver::recv`
unfoldable pub recv : List ℕ → Incoming
unfolding read_exact from_be_bytes
recv stream = elim (read_exact 2 stream) [
  | none ↦ incomplete
  | some (len_bytes, at_bytes) ↦ elim (read_exact (from_be_bytes len_bytes) at_bytes) [
    | none ↦ incomplete
    | some (bytes, rest) ↦ classify bytes rest
  ]
]

-- `send_handler_first_message`
unfoldable pub handler_first_message : SocketAddr → Result (List ℕ)
unfolding frame
handler_first_message address = do
  address_srl ← serialize_socket_address address
  ok (frame (msg_type_handler_first ∷ address_srl))

-- The address in the nine bytes of a first message.
unfoldable pub first_address : List ℕ → Result SocketAddr
first_address (l0 ∷ l1 ∷ kind ∷ address_srl) = deserialize_socket_address_srl address_srl
first_address _ = panic

-- `read_handler_first_message`: nothing, where the stream has fewer than nine bytes.
unfoldable pub read_handler_first_message : List ℕ → Option (Result SocketAddr × List ℕ)
unfolding read_exact first_address
read_handler_first_message stream = elim (read_exact 9 stream) [
  | none ↦ none
  | some (bytes, rest) ↦ some (first_address bytes, rest)
]
