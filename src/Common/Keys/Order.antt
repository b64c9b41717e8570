-- ===== src/Common/Keys/Order.antt =====
-- Sorting keys keeps them and orders them, and a strictly sorted list is determined by its members.
use Prim.Native.Nat.{ℕ}
use mathlib.Core.Path.{◌≡◌, refl, sym, ap, subst, ◌∙◌}
use mathlib.Core.Logic.{inl, inr}
use mathlib.Core.Bool.{true, false, ◌||◌}
use mathlib.Core.List.{List, [], ◌∷◌}
use native.Mathlib.Omega.{arith}
use omnibeam_go.Common.Tests.{str_eq, str_eq_iff, str_eq_refl, Bool-cases}
use omnibeam_go.Common.Lists.{All}
use omnibeam_go.Common.Keys.{str_ltb, insert_key, sort_keys, contains}

-- No key stands twice.
unfoldable pub Distinct : List (List ℕ) → Type 0
Distinct [] = Unit
Distinct (k ∷ ks) = (contains k ks ≡ false) × Distinct ks

pub IsSorted : List (List ℕ) → Type 0
IsSorted [] = Unit
IsSorted (k ∷ ks) = All (λ j. str_ltb k j ≡ true) ks × IsSorted ks

pub str_ltb_irrefl : (xs : List ℕ) → str_ltb xs xs ≡ false
unfolding str_ltb
str_ltb_irrefl [] = refl
str_ltb_irrefl (x ∷ xs) = ground (arith, str_ltb_irrefl xs)

pub str_ltb_trans :
    (xs ys zs : List ℕ) → str_ltb xs ys ≡ true → str_ltb ys zs ≡ true → str_ltb xs zs ≡ true
unfolding str_ltb
str_ltb_trans xs ys [] h k = cc
str_ltb_trans xs [] (z ∷ zs) h k = cc
str_ltb_trans [] (y ∷ ys) (z ∷ zs) h k = refl
str_ltb_trans (x ∷ xs) (y ∷ ys) (z ∷ zs) h k = ground (arith, str_ltb_trans xs ys zs)

pub str_ltb_total :
    (xs ys : List ℕ) → str_eq xs ys ≡ false → str_ltb xs ys ≡ false → str_ltb ys xs ≡ true
unfolding str_ltb str_eq
str_ltb_total [] [] h k = cc
str_ltb_total [] (y ∷ ys) h k = cc
str_ltb_total (x ∷ xs) [] h k = refl
str_ltb_total (x ∷ xs) (y ∷ ys) h k = ground (arith, str_ltb_total xs ys)

contains-insert_key :
    (j k : List ℕ) (ks : List (List ℕ))
    → contains j (insert_key k ks) ≡ (str_eq k j || contains j ks)
unfolding contains insert_key
contains-insert_key j k [] = refl
contains-insert_key j k (i ∷ ks) = ground (arith, contains-insert_key j k ks)

pub contains-sort_keys :
    (j : List ℕ) (ks : List (List ℕ)) → contains j (sort_keys ks) ≡ contains j ks
unfolding contains sort_keys
contains-sort_keys j [] = refl
contains-sort_keys j (k ∷ ks) =
    contains-insert_key j k (sort_keys ks) ∙ ap (λ b. str_eq k j || b) (contains-sort_keys j ks)

str_eq_sym : (xs ys : List ℕ) → str_eq xs ys ≡ str_eq ys xs
str_eq_sym xs ys = ground (arith, str_eq_iff xs ys, str_eq_iff ys xs)

insert_key-Distinct :
    (k : List ℕ) (ks : List (List ℕ))
    → contains k ks ≡ false
    → Distinct ks
    → Distinct (insert_key k ks)
unfolding insert_key Distinct contains
insert_key-Distinct k [] h d = (refl, tt)
insert_key-Distinct k (j ∷ ks) h d =
    ground (
      arith,
      insert_key-Distinct k ks (ground arith) d.1,
      contains-insert_key j k ks,
      str_eq_sym k j,
    )

pub sort_keys-Distinct : (ks : List (List ℕ)) → Distinct ks → Distinct (sort_keys ks)
unfolding sort_keys Distinct
sort_keys-Distinct [] d = tt
sort_keys-Distinct (k ∷ ks) d =
    insert_key-Distinct k (sort_keys ks) (contains-sort_keys k ks ∙ d.0) (sort_keys-Distinct ks d.1)

All-above :
    (k j : List ℕ) (ks : List (List ℕ))
    → str_ltb k j ≡ true
    → All (λ i. str_ltb j i ≡ true) ks
    → All (λ i. str_ltb k i ≡ true) ks
All-above k j [] h a = tt
All-above k j (i ∷ ks) h a = (str_ltb_trans k j i h a.0, All-above k j ks h a.1)

insert_key-above :
    (j k : List ℕ) (ks : List (List ℕ))
    → str_ltb j k ≡ true
    → All (λ i. str_ltb j i ≡ true) ks
    → All (λ i. str_ltb j i ≡ true) (insert_key k ks)
unfolding insert_key
insert_key-above j k [] h a = (h, tt)
insert_key-above j k (i ∷ ks) h a = elim (Bool-cases (str_ltb k i)) [
  | inl e ↦ rw e (h, a)
  | inr e ↦ rw e (a.0, insert_key-above j k ks h a.1)
]

insert_key-IsSorted :
    (k : List ℕ) (ks : List (List ℕ))
    → contains k ks ≡ false
    → IsSorted ks
    → IsSorted (insert_key k ks)
unfolding insert_key IsSorted contains
insert_key-IsSorted k [] h s = (tt, tt)
insert_key-IsSorted k (j ∷ ks) h s = elim (Bool-cases (str_ltb k j)) [
  | inl e ↦ rw e ((e, All-above k j ks e s.0), s)
  | inr e ↦ rw e (
    insert_key-above j k ks (str_ltb_total k j (ground (arith, str_eq_sym k j)) e) s.0,
    insert_key-IsSorted k ks (ground arith) s.1,
  )
]

pub sort_keys-IsSorted : (ks : List (List ℕ)) → Distinct ks → IsSorted (sort_keys ks)
unfolding sort_keys IsSorted Distinct
sort_keys-IsSorted [] d = tt
sort_keys-IsSorted (k ∷ ks) d =
    insert_key-IsSorted k (sort_keys ks) (contains-sort_keys k ks ∙ d.0) (sort_keys-IsSorted ks d.1)

above-contains :
    (k j : List ℕ) (ks : List (List ℕ))
    → All (λ i. str_ltb k i ≡ true) ks
    → contains j ks ≡ true
    → str_ltb k j ≡ true
unfolding contains
above-contains k j [] a h = cc
above-contains k j (i ∷ ks) a h = elim (Bool-cases (str_eq i j)) [
  | inl e ↦ rw ((str_eq_iff i j).0 e) at a.0
  | inr e ↦ above-contains k j ks a.1 (ground arith)
]

absent_below :
    (k : List ℕ) (ks : List (List ℕ)) → All (λ i. str_ltb k i ≡ true) ks → contains k ks ≡ false
absent_below k ks a = elim (Bool-cases (contains k ks)) [
  | inl e ↦ cc (above-contains k k ks a e, str_ltb_irrefl k)
  | inr e ↦ e
]

-- The tails of two sorted lists with one head have the same members if the lists have.
tail_members :
    (k : List ℕ) (ks ls : List (List ℕ))
    → IsSorted (k ∷ ks)
    → IsSorted (k ∷ ls)
    → ((j : List ℕ) → contains j (k ∷ ks) ≡ contains j (k ∷ ls))
    → (j : List ℕ) → contains j ks ≡ contains j ls
unfolding IsSorted contains
tail_members k ks ls s t same j = elim (Bool-cases (str_eq k j)) [
  | inl e ↦ rw (← (str_eq_iff k j).0 e) (absent_below k ks s.0 ∙ sym (absent_below k ls t.0))
  | inr e ↦ ground (arith, same j)
]

heads_agree :
    (k l : List ℕ) (ks ls : List (List ℕ))
    → IsSorted (k ∷ ks)
    → IsSorted (l ∷ ls)
    → ((j : List ℕ) → contains j (k ∷ ks) ≡ contains j (l ∷ ls))
    → k ≡ l
unfolding IsSorted contains
heads_agree k l ks ls s t same = ground (
  arith,
  same k,
  same l,
  str_eq_refl k,
  str_eq_refl l,
  str_eq_iff k l,
  str_eq_iff l k,
  above-contains k l ks s.0,
  above-contains l k ls t.0,
  str_ltb_trans k l k,
  str_ltb_irrefl k,
)

-- A sorted list of keys is determined by which keys it contains.
pub sorted_unique :
    (ks ls : List (List ℕ))
    → IsSorted ks
    → IsSorted ls
    → ((j : List ℕ) → contains j ks ≡ contains j ls)
    → ks ≡ ls
unfolding IsSorted contains
sorted_unique [] [] s t same = refl
sorted_unique [] (l ∷ ls) s t same = ground (arith, same l, str_eq_refl l)
sorted_unique (k ∷ ks) [] s t same = ground (arith, same k, str_eq_refl k)
sorted_unique (k ∷ ks) (l ∷ ls) s t same =
    let e = heads_agree k l ks ls s t same in
    let t' = subst (λ h. IsSorted (h ∷ ls)) (sym e) t in
    let same' =
      subst (λ h. (j : List ℕ) → contains j (k ∷ ks) ≡ contains j (h ∷ ls)) (sym e) same in
    cc (e, sorted_unique ks ls s.1 t.1 (tail_members k ks ls s t' same'))
