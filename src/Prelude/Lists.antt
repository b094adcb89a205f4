-- ===== src/Prelude/Lists.antt =====
-- Lists measured and indexed by native numbers, and predicates on all their elements.
use Prim.Native.Nat.{◌<◌, ℕ, zero, suc, ◌+◌}
use mathlib.Core.Path.{◌≡◌, refl}
use mathlib.Core.Option.{Option, none, some}
use ypf_fleet_fuel_distribut.Prelude.Tests.{◌==◌, if◌then◌else◌, Option-cases}
use mathlib.Core.Logic.{◌⊎◌, inl, inr}
use mathlib.Core.List.{List, [], ◌∷◌, ◌++◌}
use native.Mathlib.Omega.{arith}

module _ {ℓ} {A : Type ℓ} where
  abbrev pub length : List A → ℕ
  length [] = 0
  length (x ∷ xs) = suc (length xs)

  pub length-append : (xs ys : List A) → length (xs ++ ys) ≡ length xs + length ys
  length-append [] ys = omega arith
  length-append (x ∷ xs) ys = omega (arith, length-append xs ys)

  -- The predicate holds of every element.
  abbrev pub All {κ} : (A → Type κ) → List A → Type κ
  All P [] = Unit {κ}
  All P (x ∷ xs) = P x × All P xs

  pub All-append {κ} : (P : A → Type κ) (xs ys : List A) → All P xs → All P ys → All P (xs ++ ys)
  All-append P [] ys hx hy = hy
  All-append P (x ∷ xs) ys hx hy = (hx.0, All-append P xs ys hx.1 hy)

  abbrev pub get_elem? : List A → ℕ → Option A
  get_elem? [] i = none
  get_elem? (x ∷ xs) zero = some x
  get_elem? (x ∷ xs) (suc i) = get_elem? xs i

  -- `xs[i] = x`: nothing, where the program panics.
  abbrev pub set : List A → ℕ → A → Option (List A)
  set [] i y = none
  set (x ∷ xs) zero y = some (y ∷ xs)
  set (x ∷ xs) (suc i) y = elim (set xs i y) [ none ↦ none | some ys ↦ some (x ∷ ys) ]

  -- An element is replaced if there is one.
  pub set_present :
      (xs : List A) (i : ℕ) (x y : A)
      → get_elem? xs i ≡ some x
      → (ys : List A) × (set xs i y ≡ some ys)
  set_present [] i x y e = absurd (cc)
  set_present (z ∷ xs) zero x y e = (y ∷ xs, refl)
  set_present (z ∷ xs) (suc i) x y e =
      let (ys, is_set) = set_present xs i x y e in (z ∷ ys, rw is_set refl)

  set_tail :
      (z : A) (xs : List A) (i : ℕ) (y : A) (ys zs : List A) (j : ℕ)
      → set (z ∷ xs) (suc i) y ≡ some ys
      → set xs i y ≡ some zs
      → ((k : ℕ) → get_elem? zs k ≡ (if k == i then some y else get_elem? xs k))
      → get_elem? ys j ≡ (if j == suc i then some y else get_elem? (z ∷ xs) j)
  set_tail z xs i y ys zs zero e is_set got = ground (arith, is_set)
  set_tail z xs i y ys zs (suc k) e is_set got = ground (arith, is_set, got k)

  -- The other elements stay.
  pub get_elem?-set :
      (xs : List A) (i : ℕ) (y : A) (ys : List A) (j : ℕ)
      → set xs i y ≡ some ys
      → get_elem? ys j ≡ (if j == i then some y else get_elem? xs j)
  get_elem?-set [] i y ys j e = absurd (cc)
  get_elem?-set (z ∷ xs) zero y ys zero e = ground arith
  get_elem?-set (z ∷ xs) zero y ys (suc j) e = ground arith
  get_elem?-set (z ∷ xs) (suc i) y ys j e = elim (Option-cases (set xs i y)) [
    | inl no_slot ↦ absurd (ground (arith, no_slot))
    | inr (zs, is_set) ↦ set_tail z xs i y ys zs j e is_set (λ k. get_elem?-set xs i y zs k is_set)
  ]

  pub get_elem?-bound : (xs : List A) (i : ℕ) → i < length xs → (x : A) × (get_elem? xs i ≡ some x)
  get_elem?-bound [] i h = absurd (omega arith)
  get_elem?-bound (x ∷ xs) zero h = (x, refl)
  get_elem?-bound (x ∷ xs) (suc i) h = get_elem?-bound xs i (omega arith)

  pub List-cases : (xs : List A) → (xs ≡ []) ⊎ ((x : A) × (rest : List A) × (xs ≡ x ∷ rest))
  List-cases [] = inl refl
  List-cases (x ∷ xs) = inr (x, xs, refl)
