-- ===== src/Wire/RoundTrip/Members.antt =====
-- Round trips of the members in a cluster view: serialization/message.rs and
-- deserialization/message.rs.
use ypf_fleet_fuel_distribut.Wire.Result.{ok}
use ypf_fleet_fuel_distribut.Prelude.{
  ◌∙◌, length-append, ℕ, ◌*◌, ◌≡◌, true, refl, List, [], ◌∷◌, ◌++◌, append_assoc, All, length, leb,
  arith,
}
use ypf_fleet_fuel_distribut.Domain.{SocketAddr}
use ypf_fleet_fuel_distribut.Wire.Bytes.{to_be_bytes, slice_from}
use ypf_fleet_fuel_distribut.Wire.Protocol.{member_srl_len}
use ypf_fleet_fuel_distribut.Wire.Serialize.Messages.{serialize_member, serialize_members}
use ypf_fleet_fuel_distribut.Wire.Deserialize.Messages.{deserialize_member, deserialize_members}
use ypf_fleet_fuel_distribut.Wire.RoundTrip.{IsWireMember}
use ypf_fleet_fuel_distribut.Wire.RoundTrip.Parts.{
  address_bytes, address-write, address-read, u64-read, u64-skip,
}

-- The bytes of a member.
unfoldable pub member_bytes : ℕ × SocketAddr → List ℕ
member_bytes (id, addr) = to_be_bytes 8 id ++ address_bytes addr

unfoldable pub members_bytes : List (ℕ × SocketAddr) → List ℕ
members_bytes [] = []
members_bytes (m ∷ members) = member_bytes m ++ members_bytes members

pub member-write : (m : ℕ × SocketAddr) → IsWireMember m → serialize_member m ≡ ok (member_bytes m)
unfolding serialize_member member_bytes
member-write (id, addr) h = rw (address-write addr h.1) refl

pub members-write :
    (members : List (ℕ × SocketAddr))
    → All IsWireMember members
    → serialize_members members ≡ ok (members_bytes members)
unfolding serialize_members members_bytes
members-write [] h = refl
members-write (m ∷ members) h = rw (member-write m h.0, members-write members h.1) refl

pub member-read :
    (m : ℕ × SocketAddr) (rest : List ℕ)
    → IsWireMember m
    → deserialize_member (member_bytes m ++ rest) ≡ ok m
unfolding deserialize_member member_bytes
member-read (id, addr) rest h = rw (
  append_assoc (to_be_bytes 8 id) (address_bytes addr) rest,
  u64-read id (address_bytes addr ++ rest) h.0,
  u64-skip id (address_bytes addr ++ rest),
  address-read addr rest h.1,
)

member-skip :
    (m : ℕ × SocketAddr) (rest : List ℕ)
    → IsWireMember m
    → slice_from 14 (member_bytes m ++ rest) ≡ ok rest
unfolding slice_from member_bytes to_be_bytes address_bytes
member-skip (id, SocketAddr.v4 a b c d port) rest h = refl
member-skip (id, SocketAddr.v6 ip port) rest h = absurd h.1

pub members-read :
    (members : List (ℕ × SocketAddr)) (rest : List ℕ)
    → All IsWireMember members
    → deserialize_members (length members) (members_bytes members ++ rest) ≡ ok (members, rest)
unfolding deserialize_members members_bytes
members-read [] rest h = refl
members-read (m ∷ members) rest h = rw (
  append_assoc (member_bytes m) (members_bytes members) rest,
  member-read m (members_bytes members ++ rest) h.0,
  member-skip m (members_bytes members ++ rest) h.0,
  members-read members rest h.1,
)

pub member_length : (m : ℕ × SocketAddr) → IsWireMember m → length (member_bytes m) ≡ member_srl_len
unfolding member_bytes to_be_bytes address_bytes
member_length (id, SocketAddr.v4 a b c d port) h = refl
member_length (id, SocketAddr.v6 ip port) h = absurd h.1

members_length :
    (members : List (ℕ × SocketAddr))
    → All IsWireMember members
    → length (members_bytes members) ≡ member_srl_len * length members
unfolding members_bytes
members_length [] h = refl
members_length (m ∷ members) h =
    length-append (member_bytes m) (members_bytes members)
    ∙ omega (arith, member_length m h.0, members_length members h.1)

-- The check of a cluster view's size passes on what is written.
pub view_long_enough :
    (members : List (ℕ × SocketAddr)) (rest : List ℕ)
    → All IsWireMember members
    → leb
        (member_srl_len * length members)
        (length (to_be_bytes 8 (length members) ++ (members_bytes members ++ rest)))
      ≡ true
unfolding to_be_bytes
view_long_enough members rest h =
    ground (arith, length-append (members_bytes members) rest, members_length members h)
