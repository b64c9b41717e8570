-- ===== src/Tracker.antt =====
-- The restriction trackers of the splittable sources: internal/beam/streams/byte_offset_tracker.go,
-- internal/beam/paged_api/page_tracker.go and internal/beam/partitions/partition_tracker.go. What
-- the three share stands here; the two kinds and their runs have modules of their own. Each method
-- holds the tracker's mutex from its first access to its last, so it is one step.
pub mod ByteOffset
pub mod Index
pub mod Laws
pub mod Runs
use omnibeam_go.Common.{ℕ, Bool, true, false, ◌||◌, Option, none, some, List, if◌then◌else◌}
use omnibeam_go.Common.Int.{ℤ, pos, leb_ℤ, ltb_ℤ}
use omnibeam_go.Common.Word.{sub64}

-- [start, end_), of int64.
pub record Range : Type 0 where
  pub start : ℤ
  pub end_ : ℤ

-- The argument of `TryClaim` is an `any`; `unsupported` holds the name of any other type.
pub data Position : Type 0 where
  int64 int : ℤ → Position
  unsupported : List ℕ → Position

pub record Tracker : Type 0 where
  pub rest : Range
  pub claimed : ℤ
  pub stopped : Bool
  pub error : Option (List ℕ)

-- `NewByteOffsetTracker`, `NewPageRangeTracker` and `NewPartitionRangeTracker`
unfoldable pub new_tracker : Range → Tracker
new_tracker rest = record {
  rest = rest;
  claimed = sub64 rest.start (pos 1);
  stopped = false;
  error = none;
}

-- `ClaimOffset`, and the end of the other trackers' `TryClaim`.
unfoldable pub claim_offset : Tracker → ℤ → Tracker × Bool
claim_offset t p =
    if t.stopped
    then (t, false)
    else (if ltb_ℤ p t.rest.start || (leb_ℤ t.rest.end_ p || leb_ℤ p t.claimed)
        then (record t { stopped = true }, false)
        else (record t { claimed = p }, true))

unfoldable pub reject : Tracker → List ℕ → Tracker × Bool
reject t name = (record t { error = some name; stopped = true }, false)

unfoldable pub mark_done : Tracker → Tracker
mark_done t = record t { stopped = true }

-- `t.stopped || t.claimed >= t.rest.End-1`
unfoldable pub is_done : Tracker → Bool
is_done t = t.stopped || leb_ℤ (sub64 t.rest.end_ (pos 1)) t.claimed

-- The float64 operations of `TrySplit`: its two tests, and `int64(math.Round(float64(n) * f))`.
pub record Fraction : Type 1 where
  pub Value : Type 0
  pub is_nonpositive : Value → Bool
  pub is_one_or_more : Value → Bool
  pub round_part : ℤ → Value → ℤ

-- The end of `TrySplit`: the primary is kept and the residual given away.
unfoldable pub split_at : Tracker → ℤ → Tracker × Option (Range × Range)
split_at t p =
    let primary : Range = record { start = t.rest.start; end_ = p } in
    let residual : Range = record { start = p; end_ = t.rest.end_ } in
    (record t { rest = primary }, some (primary, residual))
