-- ===== src/Wire/RoundTrip/Parts.antt =====
-- Round trips of addresses, limits and snapshots.
use ypf_fleet_fuel_distribut.Prelude.{
  append-nil, sym, append_assoc, ℕ, ◌≡◌, refl, ap, ◌∙◌, Option, none, some, List, [], ◌∷◌, ◌++◌,
  arith, All, length,
}
use ypf_fleet_fuel_distribut.Wire.Bytes.{
  IsU64, to_be_bytes, from_be_bytes, from-to_be_bytes, slice_from,
}
use ypf_fleet_fuel_distribut.Wire.Deserialize.{
  deserialize_vec_len, read_be, limit_of, deserialize_socket_address_srl,
  deserialize_account_snapshot, deserialize_card_snapshot, deserialize_accounts, deserialize_cards,
  deserialize_database_snapshot,
}
use ypf_fleet_fuel_distribut.Wire.Serialize.{
  limit_or, serialize_socket_address, serialize_account_snapshot, serialize_card_snapshot,
  serialize_accounts, serialize_cards, serialize_database_snapshot,
}
use ypf_fleet_fuel_distribut.Float.{F32, IsF32, feq}
use ypf_fleet_fuel_distribut.Float.Order.{feq-minus_one}
use ypf_fleet_fuel_distribut.Domain.{SocketAddr, AccountSnapshot, CardSnapshot, DatabaseSnapshot}
use ypf_fleet_fuel_distribut.Wire.Result.{ok}
use ypf_fleet_fuel_distribut.Wire.RoundTrip.{
  IsWireAddr, IsWireLimit, IsWireAccount, IsWireCard, IsWireSnapshot, RoundTrips,
}

-- The sentinel -1.0 and the limits are told apart.
limit_of_or : (l : Option F32) → IsWireLimit l → limit_of (limit_or l) ≡ l
unfolding feq
limit_of_or none h = refl
limit_of_or (some x) h = ground (arith, feq-minus_one x)

limit_or-IsF32 : (l : Option F32) → IsWireLimit l → IsF32 (limit_or l)
limit_or-IsF32 none h = omega arith
limit_or-IsF32 (some x) h = h.0

pub limit_back :
    (l : Option F32) → IsWireLimit l → limit_of (from_be_bytes (to_be_bytes 4 (limit_or l))) ≡ l
limit_back l h = rw (from-to_be_bytes 4 (limit_or l) (limit_or-IsF32 l h)) (limit_of_or l h)

pub account-read :
    (a : AccountSnapshot) (rest : List ℕ)
    → IsWireAccount a
    → deserialize_account_snapshot (serialize_account_snapshot a ++ rest) ≡ ok a
unfolding deserialize_account_snapshot serialize_account_snapshot
account-read a rest h = λ i. ok (record {
  account_id = from-to_be_bytes 8 a.account_id h.0 i;
  limit = limit_back a.limit h.1 i;
  consumed = from-to_be_bytes 4 a.consumed h.2 i;
})

pub card-read :
    (c : CardSnapshot) (rest : List ℕ)
    → IsWireCard c
    → deserialize_card_snapshot (serialize_card_snapshot c ++ rest) ≡ ok c
unfolding deserialize_card_snapshot serialize_card_snapshot
card-read c rest h = λ i. ok (record {
  account_id = from-to_be_bytes 8 c.account_id h.0 i;
  card_id = from-to_be_bytes 8 c.card_id h.1 i;
  limit = limit_back c.limit h.2 i;
  consumed = from-to_be_bytes 4 c.consumed h.3 i;
})

account-skip :
    (a : AccountSnapshot) (rest : List ℕ)
    → slice_from 16 (serialize_account_snapshot a ++ rest) ≡ ok rest
unfolding slice_from serialize_account_snapshot
account-skip a rest = refl

card-skip :
    (c : CardSnapshot) (rest : List ℕ) → slice_from 24 (serialize_card_snapshot c ++ rest) ≡ ok rest
unfolding slice_from serialize_card_snapshot
card-skip c rest = refl

pub accounts-read :
    (accounts : List AccountSnapshot) (rest : List ℕ)
    → All IsWireAccount accounts
    → deserialize_accounts (length accounts) (serialize_accounts accounts ++ rest)
      ≡ ok (accounts, rest)
unfolding deserialize_accounts serialize_accounts
accounts-read [] rest h = refl
accounts-read (a ∷ accounts) rest h = rw (
  append_assoc (serialize_account_snapshot a) (serialize_accounts accounts) rest,
  account-read a (serialize_accounts accounts ++ rest) h.0,
  account-skip a (serialize_accounts accounts ++ rest),
  accounts-read accounts rest h.1,
)

pub cards-read :
    (cards : List CardSnapshot) (rest : List ℕ)
    → All IsWireCard cards
    → deserialize_cards (length cards) (serialize_cards cards ++ rest) ≡ ok (cards, rest)
unfolding deserialize_cards serialize_cards
cards-read [] rest h = refl
cards-read (c ∷ cards) rest h = rw (
  append_assoc (serialize_card_snapshot c) (serialize_cards cards) rest,
  card-read c (serialize_cards cards ++ rest) h.0,
  card-skip c (serialize_cards cards ++ rest),
  cards-read cards rest h.1,
)

-- The bytes of an IPv4 address and its port.
unfoldable pub address_bytes : SocketAddr → List ℕ
address_bytes (SocketAddr.v4 a b c d port) = a ∷ b ∷ c ∷ d ∷ to_be_bytes 2 port
address_bytes (SocketAddr.v6 ip port) = []

pub address-write :
    (addr : SocketAddr) → IsWireAddr addr → serialize_socket_address addr ≡ ok (address_bytes addr)
unfolding serialize_socket_address address_bytes
address-write (SocketAddr.v4 a b c d port) h = refl
address-write (SocketAddr.v6 ip port) h = absurd h

pub address-read :
    (addr : SocketAddr) (rest : List ℕ)
    → IsWireAddr addr
    → deserialize_socket_address_srl (address_bytes addr ++ rest) ≡ ok addr
unfolding deserialize_socket_address_srl address_bytes to_be_bytes
address-read (SocketAddr.v4 a b c d port) rest h =
    ap (λ p. ok (SocketAddr.v4 a b c d p)) (from-to_be_bytes 2 port h)
address-read (SocketAddr.v6 ip port) rest h = absurd h

pub address-read_end :
    (addr : SocketAddr)
    → IsWireAddr addr
    → deserialize_socket_address_srl (address_bytes addr) ≡ ok addr
address-read_end addr h =
    ap deserialize_socket_address_srl (sym (append-nil (address_bytes addr)))
    ∙ address-read addr [] h

pub address-skip :
    (addr : SocketAddr) (rest : List ℕ)
    → IsWireAddr addr
    → slice_from 6 (address_bytes addr ++ rest) ≡ ok rest
unfolding slice_from address_bytes to_be_bytes
address-skip (SocketAddr.v4 a b c d port) rest h = refl
address-skip (SocketAddr.v6 ip port) rest h = absurd h

pub u32-skip : (v : ℕ) (rest : List ℕ) → slice_from 4 (to_be_bytes 4 v ++ rest) ≡ ok rest
unfolding slice_from to_be_bytes
u32-skip v rest = refl

pub u64-read : (v : ℕ) (rest : List ℕ) → IsU64 v → read_be 8 (to_be_bytes 8 v ++ rest) ≡ ok v
unfolding read_be to_be_bytes
u64-read v rest h = ap ok (from-to_be_bytes 8 v h)

pub u64-skip : (v : ℕ) (rest : List ℕ) → slice_from 8 (to_be_bytes 8 v ++ rest) ≡ ok rest
unfolding slice_from to_be_bytes
u64-skip v rest = refl

pub vec_len-read :
    (v : ℕ) (rest : List ℕ) → IsU64 v → deserialize_vec_len (to_be_bytes 8 v ++ rest) ≡ ok v
unfolding deserialize_vec_len to_be_bytes
vec_len-read v rest h = ap ok (from-to_be_bytes 8 v h)

cards-read_end :
    (cards : List CardSnapshot)
    → All IsWireCard cards
    → deserialize_cards (length cards) (serialize_cards cards) ≡ ok (cards, [])
cards-read_end cards h =
    ap (deserialize_cards (length cards)) (sym (append-nil (serialize_cards cards)))
    ∙ cards-read cards [] h

-- A database snapshot is read back as it was written, if its address is IPv4, its numbers and lengths
-- have their machine widths and no limit in it is -1.0.
pub snapshot-RoundTrips :
    (db : DatabaseSnapshot)
    → IsWireSnapshot db
    → RoundTrips serialize_database_snapshot deserialize_database_snapshot db
unfolding serialize_database_snapshot deserialize_database_snapshot
snapshot-RoundTrips db h =
    let cards = to_be_bytes 8 (length db.cards) ++ serialize_cards db.cards in
    let accounts =
      to_be_bytes 8 (length db.accounts) ++ (serialize_accounts db.accounts ++ cards) in
    (
      address_bytes db.addr ++ accounts,
      rw (address-write db.addr h.addr),
      rw (
        address-read db.addr accounts h.addr,
        address-skip db.addr accounts h.addr,
        vec_len-read (length db.accounts) (serialize_accounts db.accounts ++ cards) h.accounts_len,
        u64-skip (length db.accounts) (serialize_accounts db.accounts ++ cards),
        accounts-read db.accounts cards h.accounts,
        vec_len-read (length db.cards) (serialize_cards db.cards) h.cards_len,
        u64-skip (length db.cards) (serialize_cards db.cards),
        cards-read_end db.cards h.cards,
      ),
    )
