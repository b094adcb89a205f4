-- ===== src/Nodes/Promotions/Ids.antt =====
-- The highest id in the log of a replica: server/src/node/replica.rs.
use ypf_fleet_fuel_distribut.Prelude.{
  ℕ, ◌+◌, ◌≤◌, ◌≡◌, some, [], ◌∷◌, arith, All, HashMap, lookup, insert, erase,
}
use ypf_fleet_fuel_distribut.Domain.{Operation}
use ypf_fleet_fuel_distribut.Nodes.Replica.{highest, highest_op_id}

-- No operation has a higher id.
abbrev pub UpTo : ℕ → HashMap Operation → Type 0
UpTo n m = All (λ (e : ℕ × Operation). e.0 ≤ n) m

highest-upper : (n acc : ℕ) (m : HashMap Operation) → acc ≤ n → UpTo n m → highest acc m ≤ n
highest-upper n acc [] h up = h
highest-upper n acc ((k, op) ∷ m) h up =
    ground (arith, up.0, highest-upper n acc m h up.1, highest-upper n k m up.0 up.1)

highest-start : (acc : ℕ) (m : HashMap Operation) → acc ≤ highest acc m
highest-start acc [] = omega arith
highest-start acc ((k, op) ∷ m) = ground (arith, highest-start acc m, highest-start k m)

highest-found :
    (n acc : ℕ) (m : HashMap Operation) (op : Operation) → lookup n m ≡ some op → n ≤ highest acc m
highest-found n acc [] op h = ground arith
highest-found n acc ((k, op') ∷ m) op h = ground (
  arith,
  highest-start acc m,
  highest-start k m,
  highest-found n acc m op,
  highest-found n k m op,
)

pub highest_op_id-found :
    (n : ℕ) (m : HashMap Operation) (op : Operation)
    → lookup n m ≡ some op
    → UpTo n m
    → highest_op_id m ≡ n
highest_op_id-found n [] op h up = ground arith
highest_op_id-found n ((k, op') ∷ m) op h up =
    ground (arith, highest-upper n k m up.0 up.1, highest-start k m, highest-found n k m op)

pub insert-UpTo :
    (n : ℕ) (op : Operation) (m : HashMap Operation) → UpTo n m → UpTo (n + 1) (insert (n + 1) op m)
insert-UpTo n op [] up = (omega arith, tt)
insert-UpTo n op ((k, op') ∷ m) up = ground (arith, up.0, up.1, insert-UpTo n op m up.1)

pub erase-UpTo : (n k : ℕ) (m : HashMap Operation) → UpTo n m → UpTo n (erase k m)
erase-UpTo n k [] up = tt
erase-UpTo n k (e ∷ m) up = ground (arith, up.0, up.1, erase-UpTo n k m up.1)
