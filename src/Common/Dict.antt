-- ===== src/Common/Dict.antt =====
-- A Go map keyed by strings, as an association list: the list is one order in which `range` may
-- visit the map.
use Prim.Native.Nat.{ℕ}
use mathlib.Core.Path.{◌≡◌, refl}
use mathlib.Core.Bool.{false}
use mathlib.Core.Option.{Option, none, some}
use mathlib.Core.List.{List, [], ◌∷◌, ◌++◌}
use native.Mathlib.Omega.{arith}
use omnibeam_go.Common.Tests.{if◌then◌else◌, str_eq, str_eq_iff}

abbrev pub Dict {ℓ} : Type ℓ → Type ℓ
Dict V = List (List ℕ × V)

module _ {ℓ} {V : Type ℓ} where
  unfoldable pub lookup : List ℕ → Dict V → Option V
  lookup k [] = none
  lookup k ((j, v) ∷ m) = if str_eq j k then some v else lookup k m

  -- `m[k] = v`
  unfoldable pub insert : List ℕ → V → Dict V → Dict V
  insert k v [] = (k, v) ∷ []
  insert k v ((j, w) ∷ m) = if str_eq j k then (j, v) ∷ m else (j, w) ∷ insert k v m

  -- No key stands twice, as in every map.
  unfoldable pub IsMap : Dict V → Type ℓ
  unfolding lookup
  IsMap [] = Unit
  IsMap ((k, v) ∷ m) = (lookup k m ≡ none) × IsMap m

module _ {ℓ} {V : Type ℓ} where
  pub lookup-insert :
      (k j : List ℕ) (v : V) (m : Dict V)
      → lookup j (insert k v m) ≡ (if str_eq k j then some v else lookup j m)
  unfolding lookup insert
  lookup-insert k j v [] = refl
  lookup-insert k j v ((i, w) ∷ m) =
      ground (arith, str_eq_iff k j, str_eq_iff i k, str_eq_iff i j, lookup-insert k j v m)

  pub insert_new :
      (k : List ℕ) (v : V) (m : Dict V) → lookup k m ≡ none → insert k v m ≡ m ++ ((k, v) ∷ [])
  unfolding lookup insert
  insert_new k v [] h = refl
  insert_new k v ((j, w) ∷ m) h = ground (arith, insert_new k v m)

  -- In a map the keys before an entry differ from its own.
  pub IsMap-middle :
      (m : Dict V) (k : List ℕ) (v : V) (l : Dict V) → IsMap (m ++ ((k, v) ∷ l)) → lookup k m ≡ none
  unfolding IsMap lookup
  IsMap-middle [] k v l h = refl
  IsMap-middle ((j, w) ∷ m) k v l h =
      ground (arith, str_eq_iff j k, IsMap-middle m k v l h.1, lookup-middle m k v l j h.0)
    where
      lookup-middle :
          (m : Dict V) (k : List ℕ) (v : V) (l : Dict V) (j : List ℕ)
          → lookup j (m ++ ((k, v) ∷ l)) ≡ none
          → str_eq k j ≡ false
      lookup-middle [] k v l j h = ground arith
      lookup-middle (e ∷ m) k v l j h = ground (arith, lookup-middle m k v l j)
