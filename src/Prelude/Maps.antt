-- ===== src/Prelude/Maps.antt =====
-- Go maps with numeric keys, as association lists: lookup, insertion, deletion, a pass over all the
-- values, and sums over them. A write replaces the entry of its key, so a key stands once.
use Prim.Native.Nat.{ℕ, ◌+◌, ◌≤◌}
use mathlib.Core.Path.{◌≡◌, refl}
use mathlib.Core.Logic.{inl, inr}
use mathlib.Core.List.{List, [], ◌∷◌}
use mathlib.Core.Option.{Option, none, some}
use mathlib.Core.Option
use native.Mathlib.Omega.{arith}
use yuex.Prelude.Tests.{◌==◌, if◌then◌else◌, Bool-cases}
use yuex.Prelude.Lists.{All, sum_of}

abbrev pub Map {ℓ} : Type ℓ → Type ℓ
Map V = List (ℕ × V)

module _ {ℓ} {V : Type ℓ} where
  -- m[k]
  unfoldable pub lookup : ℕ → Map V → Option V
  lookup key [] = none
  lookup key ((at, x) ∷ others) = if at == key then some x else lookup key others

  -- m[k] = v
  unfoldable pub insert : ℕ → V → Map V → Map V
  insert key x [] = (key, x) ∷ []
  insert key x ((at, old) ∷ others) =
      let rest = insert key x others in if at == key then (at, x) ∷ others else (at, old) ∷ rest

  -- delete(m, k)
  unfoldable pub delete : ℕ → Map V → Map V
  delete k [] = []
  delete k ((j, w) ∷ m) = let rest = delete k m in if j == k then rest else (j, w) ∷ rest

  unfoldable pub values : Map V → List V
  values [] = []
  values ((j, v) ∷ m) = v ∷ values m

  -- for k, v := range m { m[k] = f(v) }
  unfoldable pub map_values : (V → V) → Map V → Map V
  map_values f [] = []
  map_values f ((j, v) ∷ m) = (j, f v) ∷ map_values f m

  -- The sum of a weight over all entries.
  unfoldable pub total : (V → ℕ) → Map V → ℕ
  total f [] = 0
  total f ((j, v) ∷ m) = f v + total f m

  abbrev pub weigh : (V → ℕ) → Option V → ℕ
  weigh f none = 0
  weigh f (some v) = f v

  -- What a write changes for a reader.
  pub lookup-insert :
      (written read : ℕ) (x : V) (entries : Map V)
      → lookup read (insert written x entries)
        ≡ (if written == read then some x else lookup read entries)
  unfolding insert lookup
  lookup-insert written read x [] = refl
  lookup-insert written read x ((at, old) ∷ others) =
      ground (arith, lookup-insert written read x others)

  pub lookup-insert_self :
      (key : ℕ) (x : V) (entries : Map V) → lookup key (insert key x entries) ≡ some x
  lookup-insert_self key x entries = ground (arith, lookup-insert key key x entries)

  pub lookup-delete :
      (k j : ℕ) (m : Map V) → lookup j (delete k m) ≡ (if k == j then none else lookup j m)
  unfolding lookup delete
  lookup-delete k j [] = ground arith
  lookup-delete k j ((i, w) ∷ m) = ground (arith, lookup-delete k j m)

  -- A write replaces the weight of what stood at its key.
  pub total-insert :
      (f : V → ℕ) (k : ℕ) (v : V) (m : Map V)
      → total f (insert k v m) + weigh f (lookup k m) ≡ total f m + f v
  unfolding lookup insert total
  total-insert f k v [] = omega arith
  total-insert f k v ((i, w) ∷ m) = ground (arith, total-insert f k v m)

  -- An entry's weight is part of the sum.
  pub weigh-le-total : (f : V → ℕ) (k : ℕ) (m : Map V) → weigh f (lookup k m) ≤ total f m
  unfolding lookup total
  weigh-le-total f k [] = omega arith
  weigh-le-total f k ((i, w) ∷ m) = ground (arith, weigh-le-total f k m)

  pub lookup-map_values :
      (f : V → V) (k : ℕ) (m : Map V) → lookup k (map_values f m) ≡ Option.map f (lookup k m)
  unfolding lookup map_values
  lookup-map_values f k [] = refl
  lookup-map_values f k ((i, w) ∷ m) = ground (arith, lookup-map_values f k m)

  pub total-map_values_le :
      (f : V → ℕ) (g : V → V)
      → ((v : V) → f (g v) ≤ f v)
      → (m : Map V) → total f (map_values g m) ≤ total f m
  unfolding total map_values
  total-map_values_le f g h [] = omega arith
  total-map_values_le f g h ((i, w) ∷ m) = omega (arith, h w, total-map_values_le f g h m)

  -- No key stands twice.
  abbrev pub Distinct : Map V → Type ℓ
  Distinct [] = Unit
  Distinct ((k, v) ∷ m) = (lookup k m ≡ none) × Distinct m

  pub insert-Distinct : (k : ℕ) (v : V) (m : Map V) → Distinct m → Distinct (insert k v m)
  unfolding insert lookup
  insert-Distinct k v [] d = (refl, tt)
  insert-Distinct k v ((j, w) ∷ m) d = elim (Bool-cases (j == k)) [
    | inl e ↦ rw e d
    | inr e ↦ rw e (ground (arith, lookup-insert k j v m), insert-Distinct k v m d.1)
  ]

  -- What holds of every entry that a lookup finds holds of all the values.
  pub All-values {κ} :
      (P : V → Type κ) (m : Map V)
      → Distinct m
      → ((k : ℕ) (v : V) → lookup k m ≡ some v → P v)
      → All P (values m)
  unfolding lookup values
  All-values P [] d h = tt
  All-values P ((j, w) ∷ m) d h =
      (h j w (ground arith), All-values P m d.1 (λ k v e. h k v (ground arith)))

  pub sum_of-values : (f : V → ℕ) (m : Map V) → sum_of f (values m) ≡ total f m
  unfolding sum_of values total
  sum_of-values f [] = refl
  sum_of-values f ((k, v) ∷ m) = omega (arith, sum_of-values f m)
