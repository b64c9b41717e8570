-- ===== src/Common/Keys.antt =====
-- The keys of a Go map collected and sorted (`sort.Strings`), and the map visited in that order.
pub mod Order
pub mod Visit
use Prim.Native.Nat.{ℕ}
use mathlib.Core.Bool.{Bool, true, false, ◌&&◌, ◌||◌}
use mathlib.Core.Option.{Option, none, some}
use mathlib.Core.List.{List, [], ◌∷◌, map}
use omnibeam_go.Common.Tests.{ltb, ◌==◌, if◌then◌else◌, str_eq}
use omnibeam_go.Common.Dict.{Dict, lookup}

-- Go's `<` on strings.
unfoldable pub str_ltb : List ℕ → List ℕ → Bool
str_ltb xs [] = false
str_ltb [] (y ∷ ys) = true
str_ltb (x ∷ xs) (y ∷ ys) = ltb x y || (x == y) && str_ltb xs ys

unfoldable pub insert_key : List ℕ → List (List ℕ) → List (List ℕ)
insert_key k [] = k ∷ []
insert_key k (j ∷ ks) = let rest = insert_key k ks in if str_ltb k j then k ∷ j ∷ ks else j ∷ rest

unfoldable pub sort_keys : List (List ℕ) → List (List ℕ)
sort_keys [] = []
sort_keys (k ∷ ks) = insert_key k (sort_keys ks)

unfoldable pub contains : List ℕ → List (List ℕ) → Bool
contains j [] = false
contains j (k ∷ ks) = str_eq k j || contains j ks

module _ {ℓ} {V : Type ℓ} where
  unfoldable pub keys : Dict V → List (List ℕ)
  keys [] = []
  keys ((k, v) ∷ m) = k ∷ keys m

  -- `m[k]`, the zero value where the key is missing.
  unfoldable pub value_or : V → List ℕ → Dict V → V
  value_or z k m = elim (lookup k m) [ none ↦ z | some v ↦ v ]

  -- The entries of the map at the given keys.
  unfoldable pub visit : V → List (List ℕ) → Dict V → Dict V
  visit z [] m = []
  visit z (k ∷ ks) m = (k, value_or z k m) ∷ visit z ks m

  -- The entries in the order of the sorted keys.
  unfoldable pub sorted_entries : V → Dict V → Dict V
  sorted_entries z m = visit z (sort_keys (keys m)) m
