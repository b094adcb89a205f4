-- ===== src/Prelude/Maps.antt =====
-- A `HashMap` with numbers for keys, as an association list: one entry for each key, in the order
-- in which an iteration meets them.
use Prim.Native.Nat.{ℕ}
use mathlib.Core.Path.{◌≡◌, refl}
use mathlib.Core.Logic.{◌≢◌}
use mathlib.Core.List.{List, [], ◌∷◌}
use mathlib.Core.Option.{Option, none, some}
use native.Mathlib.Omega.{arith}
use ypf_fleet_fuel_distribut.Prelude.Tests.{◌==◌, if◌then◌else◌}

abbrev pub HashMap {ℓ} : Type ℓ → Type ℓ
HashMap V = List (ℕ × V)

module _ {ℓ} {V : Type ℓ} where
  -- `map.get(&k)`
  abbrev pub lookup : ℕ → HashMap V → Option V
  lookup k [] = none
  lookup k ((j, v) ∷ m) = if k == j then some v else lookup k m

  -- `map.insert(k, v)`
  abbrev pub insert : ℕ → V → HashMap V → HashMap V
  insert k v [] = (k, v) ∷ []
  insert k v (e ∷ m) = if k == e.0 then (k, v) ∷ m else e ∷ insert k v m

  -- `map.remove(&k)`
  abbrev pub erase : ℕ → HashMap V → HashMap V
  erase k [] = []
  erase k (e ∷ m) = if k == e.0 then m else e ∷ erase k m

  pub lookup-insert :
      (j k : ℕ) (v : V) (m : HashMap V)
      → lookup j (insert k v m) ≡ (if j == k then some v else lookup j m)
  lookup-insert j k v [] = refl
  lookup-insert j k v (e ∷ m) = ground (arith, lookup-insert j k v m)

  pub lookup-insert_self : (k : ℕ) (v : V) (m : HashMap V) → lookup k (insert k v m) ≡ some v
  lookup-insert_self k v m = ground (arith, lookup-insert k k v m)

  pub lookup-erase_ne : (j k : ℕ) (m : HashMap V) → j ≢ k → lookup j (erase k m) ≡ lookup j m
  lookup-erase_ne j k [] h = refl
  lookup-erase_ne j k (e ∷ m) h = ground (arith, lookup-erase_ne j k m h)

  pub insert-insert : (k : ℕ) (v w : V) (m : HashMap V) → insert k w (insert k v m) ≡ insert k w m
  insert-insert k v w [] = ground arith
  insert-insert k v w (e ∷ m) = ground (arith, insert-insert k v w m)

  pub lookup-erase-insert :
      (k : ℕ) (v : V) (m : HashMap V) → lookup k m ≡ none → lookup k (erase k (insert k v m)) ≡ none
  lookup-erase-insert k v [] h = ground arith
  lookup-erase-insert k v (e ∷ m) h = ground (arith, lookup-erase-insert k v m)

  -- No key has two entries.
  abbrev pub IsMap : HashMap V → Type ℓ
  IsMap [] = Unit {ℓ}
  IsMap ((k, v) ∷ m) = (lookup k m ≡ none) × IsMap m

  pub lookup-erase :
      (j k : ℕ) (m : HashMap V)
      → IsMap m
      → lookup j (erase k m) ≡ (if j == k then none else lookup j m)
  lookup-erase j k [] h = ground arith
  lookup-erase j k (e ∷ m) h = ground (arith, lookup-erase j k m h.1)

  pub IsMap-insert : (k : ℕ) (v : V) (m : HashMap V) → IsMap m → IsMap (insert k v m)
  IsMap-insert k v [] h = (refl, tt)
  IsMap-insert k v (e ∷ m) h = ground (arith, IsMap-insert k v m h.1, lookup-insert e.0 k v m)

  pub IsMap-erase : (k : ℕ) (m : HashMap V) → IsMap m → IsMap (erase k m)
  IsMap-erase k [] h = h
  IsMap-erase k (e ∷ m) h = ground (arith, IsMap-erase k m h.1, lookup-erase e.0 k m h.1)
