-- ===== src/Examples/Combine.antt =====
-- Theorems of the combiners of internal/beam/core/metrics_combiner.go at concrete plans, and a run.
use omnibeam_go.Common.{◌≡◌, Bool, true, false, [], ◌∷◌, length, arith}
use omnibeam_go.Common.Int.{pos}
use omnibeam_go.Metrics.{is_strictly_conserved, is_conserved_per_origin}
use omnibeam_go.Combine.{create_accumulator, extract_output}
use omnibeam_go.Combine.Lifting.{Plan, bundle, merged, inputs}
use omnibeam_go.Combine.Origins.{run_origin, fold_origin, run_origin-fold, count, run_origin_counts}
use omnibeam_go.Combine.Summary.{OriginPlan, run_summary, run_summary-conserved}

-- Two bundles and an empty one: an outcome is true for a dead letter.
abbrev outcomes : Plan Bool
outcomes = merged (bundle (true ∷ false ∷ [])) (merged (bundle []) (bundle (false ∷ [])))

-- Two origins in two bundles, with the first of them in both.
abbrev origins : Plan OriginPlan
origins =
    merged (bundle ((97 ∷ [], outcomes) ∷ (98 ∷ [], bundle (true ∷ [])) ∷ []))
      (bundle ((97 ∷ [], bundle (false ∷ [])) ∷ []))

run_origin-fold_example : run_origin outcomes ≡ fold_origin create_accumulator (inputs outcomes)
run_origin-fold_example = run_origin-fold outcomes

run_origin_counts_example :
    let m = extract_output (run_origin outcomes) in
    (m.total_read ≡ pos (length (inputs outcomes)))
    × (m.valid ≡ pos (count false (inputs outcomes)))
    × (m.dlq ≡ pos (count true (inputs outcomes)))
run_origin_counts_example = run_origin_counts outcomes (unfold inputs in omega arith)

run_summary-conserved_example :
    (is_strictly_conserved (run_summary origins) ≡ true)
    × (is_conserved_per_origin (run_summary origins) ≡ true)
run_summary-conserved_example = run_summary-conserved origins
