-- ===== src/Resilience/Sizer.antt =====
-- `AdaptiveBatchSizer` of pkg/resilience/adaptive_batch.go. Sizes are int, of 64 bits; whether the heap
-- is above its limit is read from the runtime, and comes with each flush.
use omnibeam_go.Common.{ℕ, suc, ◌+◌, ◌*◌, ◌/◌, ◌-◌, Bool, List, [], ◌∷◌, if◌then◌else◌}
use omnibeam_go.Common.Int.{ℤ, pos, negsuc, leb_ℤ, ltb_ℤ}
use omnibeam_go.Common.Word.{wrap64, add64, sub64}

-- Go's built-in `max` and `min`.
abbrev pub max_ℤ : ℤ → ℤ → ℤ
max_ℤ a b = if ltb_ℤ a b then b else a

abbrev pub min_ℤ : ℤ → ℤ → ℤ
min_ℤ a b = if ltb_ℤ b a then b else a

-- Division rounds to zero.
abbrev pub div_ℤ : ℤ → ℕ → ℤ
div_ℤ (pos n) d = pos (n / d)
div_ℤ (negsuc n) d = if leb_ℤ (pos d) (pos (suc n)) then negsuc (suc n / d - 1) else pos 0

abbrev pub times_ten : ℤ → ℤ
times_ten (pos n) = wrap64 (pos (10 * n))
times_ten (negsuc n) = wrap64 (negsuc (10 * n + 9))

pub record Sizer : Type 0 where
  pub min_size : ℤ
  pub max_size : ℤ
  pub current : ℤ

-- The thresholds of the latency, in nanoseconds, which every sizer has.
abbrev pub fast_threshold : ℤ
fast_threshold = pos 200000000

abbrev pub slow_threshold : ℤ
slow_threshold = pos 1500000000

unfoldable pub min_or_default : ℤ → ℤ
min_or_default m = if leb_ℤ m (pos 0) then pos 500 else m

unfoldable pub new_sizer : ℤ → ℤ → Sizer
new_sizer min_size max_size =
    let low = min_or_default min_size in
    record {
      min_size = low;
      max_size = if ltb_ℤ max_size low then times_ten low else max_size;
      current = low;
    }

-- `RecordFlush`
unfoldable pub record_flush : Bool → ℤ → Sizer → Sizer
record_flush heap_high latency s =
    if heap_high
    then record s { current = s.min_size }
    else (if ltb_ℤ latency fast_threshold
        then record s {
          current = min_ℤ s.max_size (add64 s.current (max_ℤ (div_ℤ s.current 5) (pos 50)));
        }
        else (if ltb_ℤ slow_threshold latency
            then record s {
              current = max_ℤ s.min_size (sub64 s.current (max_ℤ (div_ℤ s.current 3) (pos 50)));
            }
            else s))

-- The flushes of a sink: whether the heap is above its limit, and the latency.
unfoldable pub flushes : Sizer → List (Bool × ℤ) → Sizer
flushes s [] = s
flushes s ((heap_high, latency) ∷ fs) = flushes (record_flush heap_high latency s) fs
