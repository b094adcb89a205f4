-- ===== src/Network/Frames/Delivery.antt =====
-- What is written on a stream by common/src/network/handler/sender.rs is what receiver.rs reads.
use ypf_fleet_fuel_distribut.Prelude.{
  All, ℕ, zero, suc, ◌%◌, ◌^◌, ◌<◌, ◌≤◌, ◌≡◌, ◌≢◌, ◌∙◌, refl, ap, sym, Option, none, some, List, [],
  ◌∷◌, ◌++◌, length, arith,
}
use ypf_fleet_fuel_distribut.Domain.{Message}
use ypf_fleet_fuel_distribut.Wire.Result.{Result, invalid_data, err, ok, ◌>>=◌}
use ypf_fleet_fuel_distribut.Wire.Bytes.{to_be_bytes, from-to_be_bytes}
use ypf_fleet_fuel_distribut.Wire.Serialize.Messages.{serialize_message}
use ypf_fleet_fuel_distribut.Wire.Deserialize.Messages.{deserialize_message}
use ypf_fleet_fuel_distribut.Wire.RoundTrip.{IsWireMessage}
use ypf_fleet_fuel_distribut.Wire.RoundTrip.Messages.{message-RoundTrips}
use ypf_fleet_fuel_distribut.Network.Frames.{
  frame, write_message, read_exact, Incoming, node_message, request_beat, reply_beat,
  heartbeat_request, heartbeat_reply, write_heartbeat_request, write_heartbeat_reply, classify,
  recv,
}

abbrev pub split_at : ℕ → List ℕ → List ℕ × List ℕ
split_at zero bytes = ([], bytes)
split_at (suc n) [] = ([], [])
split_at (suc n) (b ∷ bytes) = (b ∷ (split_at n bytes).0, (split_at n bytes).1)

pub read_exact-append :
    (bytes rest : List ℕ) → read_exact (length bytes) (bytes ++ rest) ≡ some (bytes, rest)
unfolding read_exact
read_exact-append [] rest = refl
read_exact-append (b ∷ bytes) rest = ground (arith, read_exact-append bytes rest)

read_exact-part :
    (n : ℕ) (bytes rest : List ℕ)
    → n ≤ length bytes
    → read_exact n (bytes ++ rest) ≡ some ((split_at n bytes).0, (split_at n bytes).1 ++ rest)
unfolding read_exact
read_exact-part zero bytes rest h = refl
read_exact-part (suc n) [] rest h = absurd (omega arith)
read_exact-part (suc n) (b ∷ bytes) rest h = ground (arith, read_exact-part n bytes rest)

-- The receiver reads as many bytes as the length field says, and classifies them.
pub recv-frame :
    (bytes rest : List ℕ)
    → recv (frame bytes ++ rest) ≡ (
        let n = length bytes % 2 ^ 16 in
        classify (split_at n bytes).0 ((split_at n bytes).1 ++ rest))
unfolding recv frame to_be_bytes
recv-frame bytes rest =
    let n = length bytes % 2 ^ 16 in
    ground (arith, from-to_be_bytes 2 n (omega arith), read_exact-part n bytes rest)

split_whole : (bytes : List ℕ) → split_at (length bytes) bytes ≡ (bytes, [])
split_whole [] = refl
split_whole (b ∷ bytes) = ground (arith, split_whole bytes)

-- What a side writes on a stream.
pub data Outgoing : Type 0 where
  node : Message → Outgoing
  request reply : Outgoing

pub write_outgoing : Outgoing → Result (List ℕ)
unfolding write_message write_heartbeat_request write_heartbeat_reply
write_outgoing (node msg) = write_message msg
write_outgoing request = ok write_heartbeat_request
write_outgoing reply = ok write_heartbeat_reply

pub write_all : List Outgoing → Result (List ℕ)
unfolding write_outgoing
write_all [] = ok []
write_all (out ∷ outs) = do bytes ← write_outgoing out; rest ← write_all outs; ok (bytes ++ rest)

-- Reads `n` frames; nothing, where one is not whole or no message.
pub read_all : ℕ → List ℕ → Option (List Outgoing × List ℕ)
unfolding recv
read_all zero stream = some ([], stream)
read_all (suc n) stream = elim (recv stream) [
  | node_message msg rest ↦ elim (read_all n rest) [
    | none ↦ none
    | some (outs, left) ↦ some (node msg ∷ outs, left)
  ]
  | request_beat rest ↦ elim (read_all n rest) [
    | none ↦ none
    | some (outs, left) ↦ some (request ∷ outs, left)
  ]
  | reply_beat rest ↦ elim (read_all n rest) [
    | none ↦ none
    | some (outs, left) ↦ some (reply ∷ outs, left)
  ]
  | _ ↦ none
]

-- A message that is read back, and whose bytes are fewer than 2^16.
abbrev pub IsSendable : Outgoing → Type 0
IsSendable (node msg) =
    IsWireMessage msg
    × ((bytes : List ℕ) → serialize_message msg ≡ ok bytes → length bytes < 2 ^ 16)
IsSendable request = Unit {0}
IsSendable reply = Unit {0}

request_refused : deserialize_message (heartbeat_request ∷ []) ≡ err invalid_data
unfolding deserialize_message
request_refused = refl

reply_refused : deserialize_message (heartbeat_reply ∷ []) ≡ err invalid_data
unfolding deserialize_message
reply_refused = refl

-- A heartbeat's byte is no message.
beats_invalid :
    (b : ℕ) (msg : Message)
    → deserialize_message (b ∷ []) ≡ ok msg
    → (b ≢ heartbeat_request) × (b ≢ heartbeat_reply)
beats_invalid b msg e =
    let read = λ (k : ℕ). deserialize_message (k ∷ []) in
    (
      λ is_request. absurd (ground (arith, sym e ∙ ap read is_request ∙ request_refused)),
      λ is_reply. absurd (ground (arith, sym e ∙ ap read is_reply ∙ reply_refused)),
    )

classified :
    (bytes rest : List ℕ) (msg : Message)
    → deserialize_message bytes ≡ ok msg
    → classify bytes rest ≡ node_message msg rest
unfolding classify
classified [] rest msg e = rw e refl
classified (b ∷ []) rest msg e = ground (arith, e, beats_invalid b msg e)
classified (b ∷ c ∷ bytes) rest msg e = rw e refl

-- What arrives if the sender wrote `out`.
abbrev arrives : Outgoing → List ℕ → Incoming
arrives (node msg) rest = node_message msg rest
arrives request rest = request_beat rest
arrives reply rest = reply_beat rest

whole_frame :
    (bytes rest : List ℕ) → length bytes < 2 ^ 16 → recv (frame bytes ++ rest) ≡ classify bytes rest
whole_frame bytes rest small =
    let fits : length bytes % 2 ^ 16 ≡ length bytes = omega arith in
    recv-frame bytes rest ∙ rw (fits, split_whole bytes) refl

beat_frame :
    (b : ℕ) (rest : List ℕ) → recv (to_be_bytes 2 1 ++ b ∷ [] ++ rest) ≡ classify (b ∷ []) rest
unfolding frame
beat_frame b rest = whole_frame (b ∷ []) rest (omega arith)

request_arrives : (rest : List ℕ) → recv (write_heartbeat_request ++ rest) ≡ request_beat rest
unfolding write_heartbeat_request classify
request_arrives rest = beat_frame heartbeat_request rest

reply_arrives : (rest : List ℕ) → recv (write_heartbeat_reply ++ rest) ≡ reply_beat rest
unfolding write_heartbeat_reply classify
reply_arrives rest = beat_frame heartbeat_reply rest

one_arrives :
    (out : Outgoing)
    → IsSendable out
    → (bytes : List ℕ) × (write_outgoing out ≡ ok bytes)
      × ((rest : List ℕ) → recv (bytes ++ rest) ≡ arrives out rest)
unfolding write_outgoing write_message
one_arrives (node msg) (wire, small) =
    let (bytes, written, is_read) = message-RoundTrips msg wire in
    (
      frame bytes,
      rw written refl,
      λ rest. whole_frame bytes rest (small bytes written) ∙ classified bytes rest msg is_read,
    )
one_arrives request h = (write_heartbeat_request, refl, λ rest. request_arrives rest)
one_arrives reply h = (write_heartbeat_reply, refl, λ rest. reply_arrives rest)

empty_writes : write_all [] ≡ ok []
unfolding write_all
empty_writes = refl

empty_reads : read_all 0 [] ≡ some ([], [])
unfolding read_all
empty_reads = refl

write_more :
    (out : Outgoing) (outs : List Outgoing) (bytes stream : List ℕ)
    → write_outgoing out ≡ ok bytes
    → write_all outs ≡ ok stream
    → write_all (out ∷ outs) ≡ ok (bytes ++ stream)
unfolding write_all
write_more out outs bytes stream written rest_written = ground (arith, written, rest_written)

read_more :
    (out : Outgoing) (outs : List Outgoing) (n : ℕ) (stream rest : List ℕ)
    → recv stream ≡ arrives out rest
    → read_all n rest ≡ some (outs, [])
    → read_all (suc n) stream ≡ some (out ∷ outs, [])
unfolding read_all
read_more (node msg) outs n stream rest arrived is_read = ground (arith, arrived, is_read)
read_more request outs n stream rest arrived is_read = ground (arith, arrived, is_read)
read_more reply outs n stream rest arrived is_read = ground (arith, arrived, is_read)

-- Messages and heartbeats in any order arrive as they were sent, and nothing is left on the stream,
-- if each message has a round trip and fewer than 2^16 bytes.
pub frames_arrive :
    (outs : List Outgoing)
    → All IsSendable outs
    → (stream : List ℕ) × (write_all outs ≡ ok stream)
      × (read_all (length outs) stream ≡ some (outs, []))
frames_arrive [] h = ([], empty_writes, empty_reads)
frames_arrive (out ∷ outs) (h, hs) =
    let (bytes, written, arrived) = one_arrives out h in
    let (stream, rest_written, rest_read) = frames_arrive outs hs in
    (
      bytes ++ stream,
      write_more out outs bytes stream written rest_written,
      read_more out outs (length outs) (bytes ++ stream) stream (arrived stream) rest_read,
    )
