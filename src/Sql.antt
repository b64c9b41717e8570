-- ===== src/Sql.antt =====
-- The slices of internal/adapters/partitions/sql/range_slicer.go and how
-- internal/adapters/partitions/sql/generic_sql_source.go makes them.
pub mod Coverage
pub mod Stream
use omnibeam_go.Common.{
  ℕ, zero, suc, Bool, true, false, ◌&&◌, ◌||◌, not, ◌⊎◌, inl, inr, Option, none, some, List, [],
  ◌∷◌, ◌==◌, if◌then◌else◌,
}
use omnibeam_go.Numbers.{trim_space}

-- A bound is nil where the database gives NULL.
pub record Bucket (K : Type 0) : Type 0 where
  pub bucket_id : ℕ
  pub lower : Option K
  pub upper : Option K

pub record Slice (K : Type 0) : Type 0 where
  pub slice_index : ℕ
  pub lower_bound : Option K
  pub upper_bound : Option K
  pub is_first : Bool
  pub is_last : Bool

-- "$1" and so on, or "?".
pub data Placeholder : Type 0 where
  dollar : ℕ → Placeholder
  question : Placeholder

abbrev pub placeholder : Bool → ℕ → Placeholder
placeholder true n = dollar n
placeholder false n = question

-- The three texts of a slice's query with their arguments: the base query and the partition column,
-- and `column >= p1`, `column >= p1 AND column < p2`.
pub data Query (K : Type 0) : Type 0 where
  full_scan : List ℕ → Query K
  from_lower : List ℕ → List ℕ → Placeholder → Option K → Query K
  within : List ℕ → List ℕ → Placeholder → Placeholder → Option K → Option K → Query K

abbrev pub is_nil : {K : Type 0} → Option K → Bool
is_nil none = true
is_nil (some k) = false

module _ {K : Type 0} where
  abbrev pub single_slice : Slice K
  single_slice = record {
    slice_index = 0;
    lower_bound = none;
    upper_bound = none;
    is_first = true;
    is_last = true;
  }

  -- The loop from index `i` on; the upper bound is the lower bound of the next bucket, if there is one.
  unfoldable pub slices_from : ℕ → List (Bucket K) → List (Slice K)
  slices_from i [] = []
  slices_from i (b ∷ []) =
      record {
        slice_index = i;
        lower_bound = b.lower;
        upper_bound = b.upper;
        is_first = i == 0;
        is_last = true;
      }
      ∷ []
  slices_from i (b ∷ c ∷ bs) =
      record {
        slice_index = i;
        lower_bound = b.lower;
        upper_bound = c.lower;
        is_first = i == 0;
        is_last = false;
      }
      ∷ slices_from (suc i) (c ∷ bs)

  unfoldable pub construct_contiguous_slices : List (Bucket K) → List (Slice K)
  construct_contiguous_slices [] = single_slice ∷ []
  construct_contiguous_slices (b ∷ bs) = slices_from 0 (b ∷ bs)

  unfoldable pub build_worker_slice_query : List ℕ → List ℕ → Slice K → Bool → Query K
  build_worker_slice_query base col s dollars =
      let trimmed = trim_space base in
      if (s.is_first && s.is_last) || (is_nil s.lower_bound && is_nil s.upper_bound)
      then full_scan trimmed
      else (if s.is_last
          then from_lower trimmed col (placeholder dollars 1) s.lower_bound
          else within trimmed col (placeholder dollars 1) (placeholder dollars 2) s.lower_bound
              s.upper_bound)

-- The errors of `CalculateSlices`; the texts are those of the configuration and of the driver.
pub data SliceError : Type 0 where
  circuit_open : SliceError
  effective_query_failed bounds_query_failed bounds_rows_failed : List ℕ → SliceError

unfoldable pub slices_of_rows :
    {K : Type 0} → List ℕ ⊎ (List ℕ ⊎ List (Bucket K)) → SliceError ⊎ List (Slice K)
slices_of_rows (inl err) = inl (bounds_query_failed err)
slices_of_rows (inr (inl err)) = inl (bounds_rows_failed err)
slices_of_rows (inr (inr buckets)) = inr (construct_contiguous_slices buckets)

unfoldable pub slices_of_query :
    {K : Type 0}
    → List ℕ ⊎ List ℕ
    → (List ℕ → List ℕ ⊎ (List ℕ ⊎ List (Bucket K)))
    → SliceError ⊎ List (Slice K)
slices_of_query (inl err) run = inl (effective_query_failed err)
slices_of_query (inr query) run = slices_of_rows (run query)

unfoldable pub unless_blank :
    {K : Type 0} → List ℕ → SliceError ⊎ List (Slice K) → SliceError ⊎ List (Slice K)
unless_blank [] sliced = inr (single_slice ∷ [])
unless_blank (c ∷ col) sliced = sliced

-- `CalculateSlices`, for the effective query of the configuration and for a database that answers the
-- bounds query with an error, with rows that fail, or with buckets.
unfoldable pub calculate_slices :
    {K : Type 0}
    → Bool
    → List ℕ
    → List ℕ ⊎ List ℕ
    → (List ℕ → List ℕ ⊎ (List ℕ ⊎ List (Bucket K)))
    → SliceError ⊎ List (Slice K)
calculate_slices is_open col effective run =
    if is_open
    then inl circuit_open
    else unless_blank (trim_space col) (slices_of_query effective run)
