-- ===== src/Prelude/Maps.antt =====
-- Go maps with string keys, as association lists. A `range` over a map visits the entries in the
-- order of the list; Go fixes no order, so a statement for every list covers every order.
use mathlib.Core.Path.{◌≡◌, refl, sym}
use mathlib.Core.Logic.{inl, inr}
use mathlib.Core.Bool.{Bool, ◌&&◌}
use mathlib.Core.List.{List, [], ◌∷◌, map}
use mathlib.Core.Option.{Option, none, some}
use native.Mathlib.Omega.{arith}
use gnmi_gateway.Prelude.Lists.{any, keep}
use gnmi_gateway.Prelude.Tests.{if◌then◌else◌, is_some, Bool-cases}
use gnmi_gateway.Prelude.Strings.{Text, ◌==◌, eq_iff, eq_refl}

abbrev pub Map {ℓ} : Type ℓ → Type ℓ
Map V = List (Text × V)

module _ {ℓ} {V : Type ℓ} where
  -- `v, ok := m[k]`
  unfoldable pub lookup : Map V → Text → Option V
  lookup [] k = none
  lookup ((j, v) ∷ m) k = if j == k then some v else lookup m k

  -- `m[k] = v`
  unfoldable pub insert : Map V → Text → V → Map V
  insert [] k v = (k, v) ∷ []
  insert ((j, w) ∷ m) k v = if j == k then (k, v) ∷ m else (j, w) ∷ insert m k v

  -- `delete(m, k)`
  unfoldable pub erase : Map V → Text → Map V
  erase [] k = []
  erase ((j, w) ∷ m) k = let rest = erase m k in if j == k then rest else (j, w) ∷ rest

  -- `_, ok := m[k]`
  abbrev pub has : Map V → Text → Bool
  has m k = is_some (lookup m k)

  abbrev pub keys : Map V → List Text
  keys = map (λ e. e.0)

  pub lookup-insert :
      (m : Map V) (k : Text) (v : V) (j : Text)
      → lookup (insert m k v) j ≡ (if k == j then some v else lookup m j)
  unfolding lookup insert
  lookup-insert [] k v j = refl
  lookup-insert ((i, w) ∷ m) k v j =
      ground (arith, eq_iff k j, eq_iff i k, eq_iff i j, lookup-insert m k v j)

  pub lookup-erase :
      (m : Map V) (k j : Text) → lookup (erase m k) j ≡ (if k == j then none else lookup m j)
  unfolding lookup erase
  lookup-erase [] k j = ground arith
  lookup-erase ((i, w) ∷ m) k j =
      ground (arith, eq_iff k j, eq_iff i k, eq_iff i j, lookup-erase m k j)

-- A filter by a test keeps a text exactly if it passes.
pub any-keep :
    (p : Text → Bool) (x : Text) (ms : List Text)
    → any (λ m. m == x) (keep p ms) ≡ (any (λ m. m == x) ms && p x)
unfolding any keep
any-keep p x [] = refl
any-keep p x (m ∷ ms) = ground (arith, any-keep p x ms, eq_iff m x)

pub any-keys {ℓ} : {V : Type ℓ} (m : Map V) (x : Text) → any (λ n. n == x) (keys m) ≡ has m x
unfolding any lookup
any-keys [] x = refl
any-keys ((j, v) ∷ m) x = ground (arith, any-keys m x)

module _ {ℓ} {V : Type ℓ} where
  -- No key stands twice, as in a Go map.
  abbrev pub IsMap : Map V → Type ℓ
  IsMap [] = Unit
  IsMap ((k, v) ∷ m) = (lookup m k ≡ none) × IsMap m

  insert-absent :
      (m : Map V) (k j : Text) (v : V)
      → lookup m j ≡ none
      → (k ≡ j → ⊥)
      → lookup (insert m k v) j ≡ none
  insert-absent m k j v e h = rw lookup-insert (ground (arith, eq_iff k j))

  pub insert-IsMap : (m : Map V) (k : Text) (v : V) → IsMap m → IsMap (insert m k v)
  unfolding insert lookup
  insert-IsMap [] k v h = (refl, tt)
  insert-IsMap ((j, w) ∷ m) k v h = elim (Bool-cases (j == k)) [
    | inl same ↦ rw same ((rw ((eq_iff j k).0 same) at h.0), h.1)
    | inr other ↦ rw other (
      insert-absent m k j v h.0 (λ e. cc (rw (other) at ((eq_iff j k).1 (sym e)))),
      insert-IsMap m k v h.1,
    )
  ]

  pub erase-IsMap : (m : Map V) (k : Text) → IsMap m → IsMap (erase m k)
  unfolding erase
  erase-IsMap [] k h = tt
  erase-IsMap ((j, w) ∷ m) k h = elim (Bool-cases (j == k)) [
    | inl same ↦ rw same (erase-IsMap m k h.1)
    | inr other ↦ rw other (rw lookup-erase (ground (arith, h.0)), erase-IsMap m k h.1)
  ]

pub ruleset map_laws = (lookup-insert, lookup-erase, eq_refl)
