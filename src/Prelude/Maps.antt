-- ===== src/Prelude/Maps.antt =====
-- Go's maps as association lists. Iteration goes through the list; a key stands once, where it was
-- first put.
use mathlib.Core.Path.{◌≡◌, refl}
use mathlib.Core.Logic.{◌⊎◌}
use mathlib.Core.Bool.{Bool, true, false}
use mathlib.Core.List.{List, [], ◌∷◌}
use mathlib.Core.Option.{Option, none, some}
use native.Mathlib.Omega.{arith}
use aimebu.Prelude.Lists.{select}
use aimebu.Prelude.Tests.{if◌then◌else◌, Eq, ◌==◌}

abbrev pub Map {ℓ κ} : Type ℓ → Type κ → Type (ℓ ⊔ κ)
Map K V = List (K × V)

abbrev pub is_some {ℓ} : {A : Type ℓ} → Option A → Bool
is_some none = false
is_some (some a) = true

-- The zero value of a missing key.
abbrev pub or_zero {ℓ} : {A : Type ℓ} → Option A → A → A
or_zero none z = z
or_zero (some a) z = a

module _ {ℓ κ} {K : Type ℓ} {V : Type κ} ⦃e : Eq K⦄ where
  unfoldable pub lookup : K → Map K V → Option V
  lookup k [] = none
  lookup k ((j, v) ∷ m) = if j == k then some v else lookup k m

  unfoldable pub insert : K → V → Map K V → Map K V
  insert k v [] = (k, v) ∷ []
  insert k v ((j, w) ∷ m) = if j == k then (k, v) ∷ m else (j, w) ∷ insert k v m

  unfoldable pub delete : K → Map K V → Map K V
  delete k [] = []
  delete k ((j, w) ∷ m) = let rest = delete k m in if j == k then rest else (j, w) ∷ rest

  -- `for k := range m { m[k] = f(k, m[k]) }`
  unfoldable pub map_values : (K → V → V) → Map K V → Map K V
  map_values f [] = []
  map_values f ((j, w) ∷ m) = (j, f j w) ∷ map_values f m

  pub lookup-insert :
      (k q : K) (v : V) (m : Map K V)
      → lookup q (insert k v m) ≡ (if k == q then some v else lookup q m)
  unfolding insert lookup
  lookup-insert k q v ((i, w) ∷ rest) =
      ground (arith, e.agrees i k, e.agrees i q, e.agrees k q, lookup-insert k q v rest)
  lookup-insert k q v [] = refl

  pub lookup-delete :
      (k j : K) (m : Map K V) → lookup j (delete k m) ≡ (if k == j then none else lookup j m)
  unfolding lookup delete
  lookup-delete k j [] = ground arith
  lookup-delete k j ((i, w) ∷ m) =
      ground (arith, e.agrees k j, e.agrees i k, e.agrees i j, lookup-delete k j m)

  pub lookup-map_values :
      (f : K → V → V) (j : K) (m : Map K V)
      → lookup j (map_values f m) ≡ elim (lookup j m) [ none ↦ none | some v ↦ some (f j v) ]
  unfolding lookup map_values
  lookup-map_values f j [] = refl
  lookup-map_values f j ((i, w) ∷ m) = ground (arith, e.agrees i j, lookup-map_values f j m)

  -- What a lookup after a change can find.
  pub insert_inv :
      (k j : K) (v w : V) (m : Map K V)
      → lookup j (insert k v m) ≡ some w
      → (v ≡ w) ⊎ (lookup j m ≡ some w)
  insert_inv k j v w m h = ground (arith, lookup-insert k j v m)

  pub delete_inv :
      (k j : K) (w : V) (m : Map K V) → lookup j (delete k m) ≡ some w → lookup j m ≡ some w
  delete_inv k j w m h = ground (arith, lookup-delete k j m)

  pub lookup-select :
      (p : K × V → Bool) (k : K) (m : Map K V)
      → is_some (lookup k (select p m)) ≡ true
      → is_some (lookup k m) ≡ true
  unfolding lookup
  lookup-select p k [] h = h
  lookup-select p k ((j, w) ∷ m) h = ground (arith, lookup-select p k m)

  -- No row has the key.
  abbrev pub NoKey : K → Map K V → Type 0
  NoKey k [] = Unit {0}
  NoKey k ((j, w) ∷ m) = (j == k ≡ false) × NoKey k m

  pub select-NoKey : (p : K × V → Bool) (k : K) (m : Map K V) → NoKey k m → NoKey k (select p m)
  select-NoKey p k [] h = tt
  select-NoKey p k ((j, w) ∷ m) h = ground (arith, select-NoKey p k m h.1)

  pub insert-NoKey :
      (j k : K) (v : V) (m : Map K V) → k == j ≡ false → NoKey j m → NoKey j (insert k v m)
  unfolding insert
  insert-NoKey j k v [] other h = (other, tt)
  insert-NoKey j k v ((i, w) ∷ m) other h = ground (arith, insert-NoKey j k v m other h.1)

  pub delete-NoKey : (j k : K) (m : Map K V) → NoKey j m → NoKey j (delete k m)
  unfolding delete
  delete-NoKey j k [] h = tt
  delete-NoKey j k ((i, w) ∷ m) h = ground (arith, delete-NoKey j k m h.1)
