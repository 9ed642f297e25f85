-- ===== src/Base/Maps.antt =====
-- Go's `map[string]V` as an association list. The program never depends on the order in which a
-- map is walked, so the order of the entries is not modelled.
use Prim.Native.String.{String}
use mathlib.Core.Path.{◌≡◌, refl}
use mathlib.Core.Logic.{inl, inr}
use mathlib.Core.Option.{Option, none, some}
use mathlib.Core.List.{List, [], ◌∷◌}
use native.Mathlib.Omega.{arith}
use text.Mathlib.Text.{◌==◌}
use text.Mathlib.TextEquality.{eq_iff}
use signbyte_bff.Base.Tests.{if◌then◌else◌}
use signbyte_bff.Base.Lists.{In}

abbrev pub Map {ℓ} : Type ℓ → Type ℓ
Map V = List (String × V)

module _ {ℓ} {V : Type ℓ} where
  -- `v, ok := m[k]`
  unfoldable pub lookup : String → Map V → Option V
  lookup k [] = none
  lookup k ((first, v) ∷ m) = if first == k then some v else lookup k m

  -- `m[k] = v`
  unfoldable pub insert : String → V → Map V → Map V
  insert k v [] = (k, v) ∷ []
  insert k v ((j, w) ∷ m) = let rest = insert k v m in if j == k then (k, v) ∷ m else (j, w) ∷ rest

  -- `delete(m, k)`
  unfoldable pub remove : String → Map V → Map V
  remove k [] = []
  remove k ((j, v) ∷ m) = let rest = remove k m in if j == k then rest else (j, v) ∷ rest

  -- After a write, the key has the new value and every other key its own.
  pub lookup-insert :
      (k j : String) (new : V) (entries : Map V)
      → lookup j (insert k new entries) ≡ (if k == j then some new else lookup j entries)
  unfolding insert lookup
  lookup-insert k j new [] = refl
  lookup-insert k j new ((first, old) ∷ entries) =
      ground (arith, lookup-insert k j new entries, eq_iff first j, eq_iff first k, eq_iff k j)

  pub lookup-remove :
      (k j : String) (m : Map V) → lookup j (remove k m) ≡ (if k == j then none else lookup j m)
  unfolding lookup remove
  lookup-remove k j [] = ground arith
  lookup-remove k j ((i, w) ∷ m) =
      ground (arith, eq_iff k j, eq_iff i k, eq_iff i j, lookup-remove k j m)

  -- No key stands twice, so that the entries of the list are those that a lookup finds.
  abbrev pub IsMap : Map V → Type ℓ
  IsMap [] = Unit
  IsMap ((k, v) ∷ m) = (lookup k m ≡ none) × IsMap m

  pub insert-IsMap : (k : String) (v : V) (m : Map V) → IsMap m → IsMap (insert k v m)
  unfolding insert lookup
  insert-IsMap k v [] h = (refl, tt)
  insert-IsMap k v ((j, w) ∷ m) (fresh, h) =
      ground (arith, eq_iff j k, eq_iff k j, insert-IsMap k v m h, lookup-insert k j v m)

module _ {V : Type 0} where
  pub lookup-In : (k : String) (v : V) (m : Map V) → lookup k m ≡ some v → In (k, v) m
  unfolding lookup
  lookup-In k v [] h = ground arith
  lookup-In k v ((j, w) ∷ m) h = ground (arith, eq_iff j k, lookup-In k v m)

  pub In-lookup : (k : String) (v : V) (m : Map V) → IsMap m → In (k, v) m → lookup k m ≡ some v
  unfolding lookup
  In-lookup k v [] h m = elim m [ ]
  In-lookup k v ((j, w) ∷ m) (fresh, h) (inl e) = ground (arith, eq_iff j k)
  In-lookup k v ((j, w) ∷ m) (fresh, h) (inr e) = ground (arith, eq_iff j k, In-lookup k v m h e)

pub ruleset map_laws = (lookup-insert, lookup-remove)
