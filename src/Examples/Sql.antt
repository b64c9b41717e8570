-- ===== src/Examples/Sql.antt =====
-- Theorems of the slices and of the streams of a partition at concrete inputs, and runs of them.
use omnibeam_go.Common.{
  ℕ, ◌*◌, ◌+◌, ◌≤◌, ◌≡◌, refl, true, false, none, some, Option, inl, inr, ◌⊎◌, List, [], ◌∷◌, leb,
  length, arith, if◌then◌else◌,
}
use omnibeam_go.Numbers.{trim_space, trim_left, trim_right}
use omnibeam_go.Sql.{
  Bucket, construct_contiguous_slices, slices_from, build_worker_slice_query, calculate_slices,
  unless_blank,
}
use omnibeam_go.Sql.Coverage.{
  KeyOrder, at_least, selects, readers, IsAscending, construct_contiguous_slices-readers,
}
use omnibeam_go.Sql.Stream.{
  Stream, Step, Run, start, next, by_producer, by_consumer, stream_start, channel_room, returned,
  stream_rows, consume,
}
use omnibeam_go.Sql.Stream.Safety.{errors_of, first_of, run_returns_all}
use omnibeam_go.Sql.Stream.Progress.{run_progress}

leb_total : (a b : ℕ) → leb a b ≡ false → leb b a ≡ true
leb_total a b h = ground arith

leb_trans : (a b c : ℕ) → leb a b ≡ true → leb b c ≡ true → leb a c ≡ true
leb_trans a b c h k = ground arith

abbrev numbers : KeyOrder
numbers = record { Key = ℕ; le = leb; le_total = leb_total; le_trans = leb_trans }

abbrev three_buckets : List (Bucket ℕ)
three_buckets =
    record { bucket_id = 1; lower = some 10; upper = some 19 }
    ∷ record { bucket_id = 2; lower = some 20; upper = some 20 }
    ∷ record { bucket_id = 3; lower = some 20; upper = some 30 }
    ∷ []

-- A row with the key 20, with which two of the buckets begin, is read once.
construct_contiguous_slices-readers_example :
    readers numbers [] (105 ∷ []) true (construct_contiguous_slices three_buckets) (some 20)
    ≡ (if at_least numbers (some 20) (some 10) then 1 else 0)
unfolding IsAscending
construct_contiguous_slices-readers_example =
    construct_contiguous_slices-readers numbers [] (105 ∷ []) true 10
      (record { bucket_id = 1; lower = some 10; upper = some 19 })
      (record { bucket_id = 2; lower = some 20; upper = some 20 })
      (record { bucket_id = 3; lower = some 20; upper = some 30 } ∷ []) (some 20) refl
      (20, (refl, (refl, (20, (refl, (refl, tt))))))

-- A row without a key is read by none of the slices.
no_key_unread :
    readers numbers [] (105 ∷ []) true (construct_contiguous_slices three_buckets) none ≡ 0
unfolding readers selects construct_contiguous_slices slices_from build_worker_slice_query
no_key_unread = refl

-- Where the keys of the last bucket are all NULL, the last slice is a full scan, and the rows of the
-- first one are read twice.
null_bucket_doubles :
    readers numbers []
      (105 ∷ [])
      true
      (construct_contiguous_slices (
        record { bucket_id = 1; lower = some 10; upper = some 19 }
        ∷ record { bucket_id = 2; lower = some 20; upper = some 29 }
        ∷ record { bucket_id = 3; lower = none; upper = none }
        ∷ []))
      (some 15)
    ≡ 2
unfolding readers selects construct_contiguous_slices slices_from build_worker_slice_query
null_bucket_doubles = refl

blank_column_is_one_slice :
    calculate_slices {K = ℕ} false (32 ∷ []) (inr []) (λ q. inl [])
    ≡ inr (
        record {
          slice_index = 0;
          lower_bound = none;
          upper_bound = none;
          is_first = true;
          is_last = true;
        }
        ∷ [])
unfolding calculate_slices unless_blank trim_space trim_left trim_right
blank_column_is_one_slice = refl

-- A row that is read and one that is not.
abbrev two_rows : List (ℕ ⊎ ℕ)
two_rows = inl 7 ∷ inr 9 ∷ []

abbrev Rows : Type 0
Rows = Stream ℕ ℕ

abbrev after_end : Rows
after_end = record {
  script = [];
  errors_closed = true;
  records_closed = true;
  records = [];
  errors = [];
  emitted = 7 ∷ [];
  phase = returned (some 9);
}

-- The producer sends and closes, then the consumer receives.
seven_steps : Run (stream_start two_rows) 7 after_end
unfolding stream_rows consume
seven_steps =
    next
      (next
        (next
          (next (next (next (next start (by_producer refl)) (by_producer refl)) (by_producer refl))
            (by_producer refl))
          (by_consumer refl))
        (by_consumer refl))
      (by_consumer refl)

run_returns_all_example :
    (after_end.emitted ≡ 7 ∷ [])
    × ((some 9 ≡ first_of (errors_of two_rows)) × (length (errors_of two_rows) ≤ channel_room))
run_returns_all_example = run_returns_all two_rows (some 9) seven_steps refl

run_progress_example :
    (7 ≤ 2 * length two_rows + 4)
    × (((o : Option ℕ) × (after_end.phase ≡ returned o)) ⊎ ((τ : Rows) × Step after_end τ))
run_progress_example = run_progress two_rows (omega arith) seven_steps
