-- ===== src/Network/Frames/Limits.antt =====
-- First messages and long messages on a stream: common/src/network/serials/handler_first_messages.rs
-- and common/src/network/handler/sender.rs.
use ypf_fleet_fuel_distribut.Prelude.{
  ℕ, zero, suc, ◌%◌, ◌^◌, ◌<◌, ◌≤◌, ◌≡◌, refl, ap, some, List, [], ◌∷◌, ◌++◌, length, length-append,
  arith,
}
use ypf_fleet_fuel_distribut.Domain.{SocketAddr}
use ypf_fleet_fuel_distribut.Wire.Result.{ok}
use ypf_fleet_fuel_distribut.Wire.Bytes.{to_be_bytes, from-to_be_bytes}
use ypf_fleet_fuel_distribut.Wire.Serialize.{serialize_socket_address}
use ypf_fleet_fuel_distribut.Wire.Deserialize.{deserialize_socket_address_srl}
use ypf_fleet_fuel_distribut.Wire.RoundTrip.{IsWireAddr}
use ypf_fleet_fuel_distribut.Network.Frames.{
  frame, classify, recv, msg_type_handler_first, handler_first_message, read_handler_first_message,
}
use ypf_fleet_fuel_distribut.Network.Frames.Delivery.{split_at, recv-frame}

split_parts :
    (n : ℕ) (bytes : List ℕ)
    → n ≤ length bytes
    → ((split_at n bytes).0 ++ (split_at n bytes).1 ≡ bytes) × (length (split_at n bytes).0 ≡ n)
split_parts zero bytes h = (refl, refl)
split_parts (suc n) [] h = absurd (omega arith)
split_parts (suc n) (b ∷ bytes) h =
    let (joined, counted) = split_parts n bytes (omega arith) in (ap (◌∷◌ b) joined, ap suc counted)

-- A message of 2^16 bytes or more is cut in two: the receiver takes as many of its bytes as its length
-- is modulo 2^16 for the whole message, and the others, of which there are some, stay on the
-- stream in front of what follows. The result is that of a frame with the taken bytes.
pub long_frame_splits :
    (bytes rest : List ℕ)
    → 2 ^ 16 ≤ length bytes
    → (head tail : List ℕ) × (head ++ tail ≡ bytes)
      × (length head ≡ length bytes % 2 ^ 16)
      × (0 < length tail)
      × (recv (frame bytes ++ rest) ≡ classify head (tail ++ rest))
long_frame_splits bytes rest long =
    let n = length bytes % 2 ^ 16 in
    let (joined, counted) = split_parts n bytes (omega arith) in
    (
      (split_at n bytes).0,
      (split_at n bytes).1,
      joined,
      counted,
      omega (
        arith,
        counted,
        ap (length {A = ℕ}) joined,
        length-append (split_at n bytes).0 (split_at n bytes).1,
      ),
      recv-frame bytes rest,
    )

-- The address of a first message is read back, and what follows it is left on the stream.
pub first_message_read :
    (addr : SocketAddr) (rest : List ℕ)
    → IsWireAddr addr
    → (bytes : List ℕ) × (handler_first_message addr ≡ ok bytes)
      × (read_handler_first_message (bytes ++ rest) ≡ some (ok addr, rest))
unfolding handler_first_message serialize_socket_address read_handler_first_message
    deserialize_socket_address_srl
first_message_read (SocketAddr.v4 a b c d port) rest h = (
  frame (msg_type_handler_first ∷ a ∷ b ∷ c ∷ d ∷ to_be_bytes 2 port),
  refl,
  ap (λ p. some (ok (SocketAddr.v4 a b c d p), rest)) (from-to_be_bytes 2 port h),
)
first_message_read (SocketAddr.v6 ip port) rest h = absurd h
