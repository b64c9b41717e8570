-- ===== src/Tracker/Index.antt =====
-- `TryClaim` and `TrySplit` of internal/beam/paged_api/page_tracker.go; those of
-- internal/beam/partitions/partition_tracker.go are the same code over slices.
use omnibeam_go.Common.{Bool, false, ◌||◌, Option, none, if◌then◌else◌}
use omnibeam_go.Common.Int.{pos, leb_ℤ}
use omnibeam_go.Common.Word.{add64, sub64}
use omnibeam_go.Tracker.{
  Range, Position, int64, int, unsupported, Tracker, claim_offset, reject, Fraction, split_at,
}

-- A stopped tracker does not look at the position.
unfoldable pub try_claim : Tracker → Position → Tracker × Bool
try_claim t (int64 p) = claim_offset t p
try_claim t (int p) = claim_offset t p
try_claim t (unsupported name) = if t.stopped then (t, false) else reject t name

module _ (𝓕 : Fraction) where
  unfoldable pub try_split : Tracker → 𝓕.Value → Tracker × Option (Range × Range)
  try_split t f =
      let next = add64 t.claimed (pos 1) in
      let remaining = sub64 (sub64 t.rest.end_ t.claimed) (pos 1) in
      let p = add64 next (𝓕.round_part remaining f) in
      if t.stopped || (𝓕.is_nonpositive f || 𝓕.is_one_or_more f)
      then (t, none)
      else (if leb_ℤ p next || leb_ℤ t.rest.end_ p then (t, none) else split_at t p)
