-- ===== src/Common/Keys/Visit.antt =====
-- A map visited at its sorted keys is the same map, and the visit does not depend on the order in
-- which the map was listed.
use Prim.Native.Nat.{ℕ, suc}
use mathlib.Core.Path.{◌≡◌, refl, sym, ap, subst, ◌∙◌}
use mathlib.Core.Bool.{Bool, true, false}
use mathlib.Core.Option.{Option, none, some}
use mathlib.Core.List.{List, [], ◌∷◌}
use native.Mathlib.Omega.{arith}
use omnibeam_go.Common.Tests.{if◌then◌else◌, str_eq, str_eq_iff, Bool-cases, Option-cases}
use omnibeam_go.Common.Lists.{All, length}
use mathlib.Core.Logic.{inl, inr}
use omnibeam_go.Common.Dict.{Dict, lookup, IsMap}
use omnibeam_go.Common.Keys.{insert_key, sort_keys, contains, keys, value_or, visit, sorted_entries}
use omnibeam_go.Common.Keys.Order.{
  Distinct, contains-sort_keys, sort_keys-Distinct, sort_keys-IsSorted, sorted_unique,
}

abbrev pub is_some {ℓ} : {A : Type ℓ} → Option A → Bool
is_some none = false
is_some (some a) = true

module _ {ℓ} {V : Type ℓ} where
  contains-keys : (j : List ℕ) (m : Dict V) → contains j (keys m) ≡ is_some (lookup j m)
  unfolding contains keys lookup
  contains-keys j [] = refl
  contains-keys j ((k, v) ∷ m) = ground (arith, contains-keys j m)

  keys-Distinct : (m : Dict V) → IsMap m → Distinct (keys m)
  unfolding keys IsMap Distinct
  keys-Distinct [] h = tt
  keys-Distinct ((k, v) ∷ m) h = (contains-keys k m ∙ ap is_some h.0, keys-Distinct m h.1)

  module _ (z : V) where
    lookup-visit :
        (j : List ℕ) (ks : List (List ℕ)) (m : Dict V)
        → lookup j (visit z ks m) ≡ (if contains j ks then some (value_or z j m) else none)
    unfolding lookup visit contains
    lookup-visit j [] m = refl
    lookup-visit j (k ∷ ks) m = ground (arith, str_eq_iff k j, lookup-visit j ks m)

    visit-IsMap : (ks : List (List ℕ)) (m : Dict V) → Distinct ks → IsMap (visit z ks m)
    unfolding IsMap visit Distinct
    visit-IsMap [] m d = tt
    visit-IsMap (k ∷ ks) m d = (lookup-visit k ks m ∙ rw d.0, visit-IsMap ks m d.1)

    pub sorted_entries-IsMap : (m : Dict V) → IsMap m → IsMap (sorted_entries z m)
    unfolding sorted_entries
    sorted_entries-IsMap m h =
        visit-IsMap (sort_keys (keys m)) m (sort_keys-Distinct (keys m) (keys-Distinct m h))

    -- Every key keeps its value.
    pub lookup-sorted_entries :
        (j : List ℕ) (m : Dict V) → lookup j (sorted_entries z m) ≡ lookup j m
    unfolding sorted_entries value_or
    lookup-sorted_entries j m =
        lookup-visit j (sort_keys (keys m)) m
        ∙ rw (contains-sort_keys j (keys m), contains-keys j m) (value_or-lookup (lookup j m) refl)
      where
        value_or-some : {v : V} → lookup j m ≡ some v → some (value_or z j m) ≡ some v
        value_or-some e = ground arith

        value_or-lookup :
            (o : Option V)
            → lookup j m ≡ o
            → (if is_some o then some (value_or z j m) else none) ≡ o
        value_or-lookup none e = refl
        value_or-lookup (some v) e = value_or-some e

    visit-same :
        (ks : List (List ℕ)) (m m' : Dict V)
        → ((j : List ℕ) → lookup j m ≡ lookup j m')
        → visit z ks m ≡ visit z ks m'
    unfolding visit value_or
    visit-same [] m m' same = refl
    visit-same (k ∷ ks) m m' same = ground (arith, same k, visit-same ks m m' same)

    -- Two listings of one map are visited alike.
    pub sorted_entries_unique :
        (m m' : Dict V)
        → IsMap m
        → IsMap m'
        → ((j : List ℕ) → lookup j m ≡ lookup j m')
        → sorted_entries z m ≡ sorted_entries z m'
    unfolding sorted_entries
    sorted_entries_unique m m' h h' same =
        rw
          (sorted_unique (sort_keys (keys m)) (sort_keys (keys m'))
            (sort_keys-IsSorted (keys m) (keys-Distinct m h))
            (sort_keys-IsSorted (keys m') (keys-Distinct m' h'))
            (λ j.
              contains-sort_keys j (keys m)
              ∙ contains-keys j m
              ∙ ap is_some (same j)
              ∙ sym (contains-keys j m')
              ∙ sym (contains-sort_keys j (keys m'))))
          (visit-same (sort_keys (keys m')) m m' same)

length-insert_key : (k : List ℕ) (ks : List (List ℕ)) → length (insert_key k ks) ≡ suc (length ks)
unfolding insert_key
length-insert_key k [] = refl
length-insert_key k (j ∷ ks) = ground (arith, length-insert_key k ks)

length-sort_keys : (ks : List (List ℕ)) → length (sort_keys ks) ≡ length ks
unfolding sort_keys
length-sort_keys [] = refl
length-sort_keys (k ∷ ks) = length-insert_key k (sort_keys ks) ∙ ap suc (length-sort_keys ks)

module _ {ℓ} {V : Type ℓ} where
  length-keys : (m : Dict V) → length (keys m) ≡ length m
  unfolding keys
  length-keys [] = refl
  length-keys ((k, v) ∷ m) = ap suc (length-keys m)

  module _ (z : V) where
    length-visit : (ks : List (List ℕ)) (m : Dict V) → length (visit z ks m) ≡ length ks
    unfolding visit
    length-visit [] m = refl
    length-visit (k ∷ ks) m = ap suc (length-visit ks m)

    pub length-sorted_entries : (m : Dict V) → length (sorted_entries z m) ≡ length m
    unfolding sorted_entries
    length-sorted_entries m =
        length-visit (sort_keys (keys m)) m ∙ length-sort_keys (keys m) ∙ length-keys m

    module _ {κ} (Q : List ℕ × V → Type κ) where
      All-lookup : (j : List ℕ) (v : V) (m : Dict V) → All Q m → lookup j m ≡ some v → Q (j, v)
      unfolding lookup
      All-lookup j v [] a e = cc
      All-lookup j v ((k, w) ∷ m) a e = elim (Bool-cases (str_eq k j)) [
        | inl same ↦ subst Q (ground (arith, (str_eq_iff k j).0 same)) a.0
        | inr differ ↦ All-lookup j v m a.1 (rw differ at e)
      ]

      All-visit :
          (ks : List (List ℕ)) (m : Dict V)
          → All Q m
          → ((j : List ℕ) → contains j ks ≡ true → is_some (lookup j m) ≡ true)
          → All Q (visit z ks m)
      unfolding visit value_or contains
      All-visit [] m a known = tt
      All-visit (k ∷ ks) m a known = elim (Option-cases (lookup k m)) [
        | inl e ↦ cc (known k (ground (arith, str_eq_iff k k)), ap is_some e)
        | inr (v, e) ↦ (
          subst Q (ground arith) (All-lookup k v m a e),
          All-visit ks m a (λ j h. known j (ground arith)),
        )
      ]

      -- What holds of every entry of the map holds of every entry that is visited.
      pub All-sorted_entries : (m : Dict V) → All Q m → All Q (sorted_entries z m)
      unfolding sorted_entries
      All-sorted_entries m a =
          All-visit (sort_keys (keys m)) m a
            (λ j h. sym (contains-keys j m) ∙ sym (contains-sort_keys j (keys m)) ∙ h)
