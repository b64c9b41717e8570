-- ===== src/Sql/Coverage.antt =====
-- Which rows the slices of internal/adapters/partitions/sql/range_slicer.go select.
use omnibeam_go.Common.{
  ℕ, suc, ◌+◌, ◌≤◌, ◌≡◌, refl, Bool, true, false, ◌&&◌, not, Option, none, some, List, [], ◌∷◌,
  ◌==◌, if◌then◌else◌, arith, length,
}
use omnibeam_go.Sql.{
  Bucket, Slice, Query, full_scan, from_lower, within, slices_from, construct_contiguous_slices,
  build_worker_slice_query,
}

-- The keys of the partition column as the database orders them.
pub record KeyOrder : Type 1 where
  pub Key : Type 0
  pub le : Key → Key → Bool
  pub le_total : (a b : Key) → le a b ≡ false → le b a ≡ true
  pub le_trans : (a b c : Key) → le a b ≡ true → le b c ≡ true → le a c ≡ true

module _ (𝓚 : KeyOrder) where
  open 𝓚 use {Key, le, le_total, le_trans}

  -- `>=` and `<` are not true where a side is NULL.
  abbrev pub at_least : Option Key → Option Key → Bool
  at_least k none = false
  at_least none (some l) = false
  at_least (some k) (some l) = le l k

  abbrev pub below : Option Key → Option Key → Bool
  below k none = false
  below none (some u) = false
  below (some k) (some u) = not (le u k)

  -- Whether a query reads a row of which the partition column holds `k`.
  unfoldable pub selects : Query Key → Option Key → Bool
  selects (full_scan base) k = true
  selects (from_lower base col p l) k = at_least k l
  selects (within base col p q l u) k = at_least k l && below k u

  -- How many of the slices read the row.
  unfoldable pub readers : List ℕ → List ℕ → Bool → List (Slice Key) → Option Key → ℕ
  readers base col dollars [] k = 0
  readers base col dollars (s ∷ ss) k =
      (if selects (build_worker_slice_query base col s dollars) k then 1 else 0)
      + readers base col dollars ss k

  -- Buckets as the bounds query gives them in the order of their ids: each begins with a key, and no
  -- later one begins with a smaller key.
  unfoldable pub IsAscending : Key → List (Bucket Key) → Type 0
  IsAscending l [] = Unit
  IsAscending l (b ∷ bs) = (m : Key) × ((b.lower ≡ some m) × ((le l m ≡ true) × IsAscending m bs))

  module _ (base col : List ℕ) (dollars : Bool) where
    -- The query of a slice that is not the only one.
    last_reads :
        (i : ℕ) (o u : Option Key) (l : Key) (k : Option Key)
        → o ≡ some l
        → selects
            (build_worker_slice_query base col
              (record {
                slice_index = suc i;
                lower_bound = o;
                upper_bound = u;
                is_first = suc i == 0;
                is_last = true;
              })
              dollars)
            k
          ≡ at_least k (some l)
    unfolding selects build_worker_slice_query
    last_reads i o u l k e = rw e (ground arith)

    inner_reads :
        (i : ℕ) (o u : Option Key) (l m : Key) (k : Option Key)
        → o ≡ some l
        → u ≡ some m
        → selects
            (build_worker_slice_query base col
              (record {
                slice_index = i;
                lower_bound = o;
                upper_bound = u;
                is_first = i == 0;
                is_last = false;
              })
              dollars)
            k
          ≡ (at_least k (some l) && below k (some m))
    unfolding selects build_worker_slice_query
    inner_reads i o u l m k e f = rw (e, f) (ground arith)

    -- A key from `l` on lies below `m` or from `m` on, not both.
    parts :
        (l m : Key) (k : Option Key)
        → le l m ≡ true
        → (if at_least k (some l) && below k (some m) then 1 else 0)
            + (if at_least k (some m) then 1 else 0)
          ≡ (if at_least k (some l) then 1 else 0)
    parts l m none h = refl
    parts l m (some k) h = ground (arith, le_total m k, le_trans l m k)

    later_reads :
        (i : ℕ) (l : Key) (b : Bucket Key) (bs : List (Bucket Key)) (k : Option Key)
        → b.lower ≡ some l
        → IsAscending l bs
        → readers base col dollars (slices_from (suc i) (b ∷ bs)) k
          ≡ (if at_least k (some l) then 1 else 0)
    unfolding readers slices_from IsAscending
    later_reads i l b [] k e h = rw (last_reads i b.lower b.upper l k e) (omega arith)
    later_reads i l b (c ∷ bs) k e (m, (f, (le_lm, h))) =
        rw (inner_reads (suc i) b.lower c.lower l m k e f, later_reads (suc i) m c bs k f h)
          (parts l m k le_lm)

    -- The row is read exactly once.
    pub construct_contiguous_slices-readers :
        (l : Key) (b c : Bucket Key) (bs : List (Bucket Key)) (k : Option Key)
        → b.lower ≡ some l
        → IsAscending l (c ∷ bs)
        → readers base col dollars (construct_contiguous_slices (b ∷ c ∷ bs)) k
          ≡ (if at_least k (some l) then 1 else 0)
    unfolding construct_contiguous_slices readers slices_from IsAscending
    construct_contiguous_slices-readers l b c bs k e (m, (f, (le_lm, h))) =
        rw (inner_reads 0 b.lower c.lower l m k e f, later_reads 0 m c bs k f h) (parts l m k le_lm)

    pub single_bucket_readers :
        (bs : List (Bucket Key)) (k : Option Key)
        → length bs ≤ 1
        → readers base col dollars (construct_contiguous_slices bs) k ≡ 1
    unfolding construct_contiguous_slices readers slices_from selects build_worker_slice_query
    single_bucket_readers [] k h = refl
    single_bucket_readers (b ∷ []) k h = ground arith
    single_bucket_readers (b ∷ c ∷ bs) k h = absurd (omega (arith, h))
