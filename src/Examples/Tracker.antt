-- ===== src/Examples/Tracker.antt =====
-- The theorems on trackers at a life of internal/beam/streams/byte_offset_tracker.go with a split
-- between two claims.
use omnibeam_go.Common.{ℕ, List, [], ◌∷◌, All, ltb, ◌/◌, arith}
use omnibeam_go.Common.Int.{ℤ, pos, negsuc, ◌<ℤ◌}
use omnibeam_go.Tracker.{Range, int64, int, Fraction}
use omnibeam_go.Tracker.Laws.{byte_offset_laws}
use omnibeam_go.Tracker.Runs.{
  Call, claim, split, finish, run, born, IsSound, run-IsSound, run-disjoint,
}

-- Fractions in halves, rounded down.
abbrev halves : Fraction
halves = record {
  Value = ℕ;
  is_nonpositive = λ n. ltb n 1;
  is_one_or_more = λ n. ltb 1 n;
  round_part = half;
}
  where
    half : ℤ → ℕ → ℤ
    half (pos n) f = pos (n / 2)
    half (negsuc n) f = negsuc n

abbrev hundred : Range
hundred = record { start = pos 0; end_ = pos 100 }

abbrev calls : List (Call (byte_offset_laws halves).Value)
calls =
    claim (int64 (pos 0))
    ∷ claim (int (pos 10))
    ∷ split 1
    ∷ claim (int64 (pos 20))
    ∷ claim (int64 (pos 60))
    ∷ finish
    ∷ []

run-IsSound_example : IsSound hundred (run (byte_offset_laws halves) (born hundred) calls)
run-IsSound_example =
    run-IsSound (byte_offset_laws halves) hundred calls (omega arith) (omega arith) (omega arith)

run-disjoint_example :
    let l = run (byte_offset_laws halves) (born hundred) calls in
    All (λ c. All (λ b. c <ℤ b.start) l.residuals) l.claims
run-disjoint_example =
    run-disjoint (byte_offset_laws halves) hundred calls (omega arith) (omega arith) (omega arith)
