-- ===== src/Tracker/ByteOffset.antt =====
-- `TryClaim` and `TrySplit` of internal/beam/streams/byte_offset_tracker.go.
use omnibeam_go.Common.{Bool, ◌||◌, Option, none, if◌then◌else◌}
use omnibeam_go.Common.Int.{ℤ, pos, leb_ℤ, ltb_ℤ}
use omnibeam_go.Common.Word.{add64, sub64}
use omnibeam_go.Tracker.{
  Range, Position, int64, int, unsupported, Tracker, claim_offset, reject, Fraction, split_at,
}

-- A position of another type stops the tracker, stopped or not.
unfoldable pub try_claim : Tracker → Position → Tracker × Bool
try_claim t (int64 p) = claim_offset t p
try_claim t (int p) = claim_offset t p
try_claim t (unsupported name) = reject t name

module _ (𝓕 : Fraction) where
  -- Behind the test of the fraction; `current` is the last claim, or the start before any.
  unfoldable pub split_from : Tracker → 𝓕.Value → ℤ → Tracker × Option (Range × Range)
  split_from t f current =
      let remaining = sub64 t.rest.end_ current in
      let p = add64 current (𝓕.round_part remaining f) in
      if ltb_ℤ remaining (pos 2)
      then (t, none)
      else (if leb_ℤ p current || leb_ℤ t.rest.end_ p then (t, none) else split_at t p)

  unfoldable pub try_split : Tracker → 𝓕.Value → Tracker × Option (Range × Range)
  try_split t f =
      if t.stopped || (𝓕.is_nonpositive f || 𝓕.is_one_or_more f)
      then (t, none)
      else split_from t f (if ltb_ℤ t.claimed t.rest.start then t.rest.start else t.claimed)
