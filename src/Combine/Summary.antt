-- ===== src/Combine/Summary.antt =====
-- `MetricsSummaryCombinerFn`: conservation of the summary, however it is bundled and merged.
use omnibeam_go.Common.{ℕ, ◌≡◌, refl, sym, ap, ◌∙◌, Bool, true, List, [], ◌∷◌, arith}
use omnibeam_go.Common.Int.{ℤ, pos, eqb_ℤ}
use omnibeam_go.Common.Word.{add64, add64_interchange, add64_zero}
use omnibeam_go.Common.Dict.{Dict, insert}
use omnibeam_go.Metrics.{
  OriginMetric, PipelineMetrics, is_strictly_conserved, origins_conserved, is_conserved_per_origin,
}
use omnibeam_go.Combine.{
  OriginSummary, create_summary, add_summary, copy_into, merge_summaries, extract_summary,
  extract_output,
}
use omnibeam_go.Combine.Origins.{run_origin, run_origin-IsConserved}
use omnibeam_go.Combine.Lifting.{Plan, run, run-P}

-- A summary of one origin in which no record is lost.
abbrev pub IsConservedOrigin : OriginMetric → Type 0
IsConservedOrigin om = om.total_read ≡ add64 om.valid om.dlq

pub record IsConservedSummary (m : PipelineMetrics) : Type 0 where
  pub total : m.total_records_read ≡ add64 m.rows_written m.dead_letter_count
  pub per_origin : origins_conserved m.origin_metrics ≡ true

eqb_ℤ_refl : (a b : ℤ) → a ≡ b → eqb_ℤ a b ≡ true
eqb_ℤ_refl a b h = ground arith

insert-conserved :
    (k : List ℕ) (om : OriginMetric) (m : Dict OriginMetric)
    → IsConservedOrigin om
    → origins_conserved m ≡ true
    → origins_conserved (insert k om m) ≡ true
unfolding insert origins_conserved
insert-conserved k om [] h c = ground (arith, eqb_ℤ_refl om.total_read (add64 om.valid om.dlq) h)
insert-conserved k om ((j, w) ∷ m) h c =
    ground (arith, eqb_ℤ_refl om.total_read (add64 om.valid om.dlq) h, insert-conserved k om m h)

copy_into-conserved :
    (res m : Dict OriginMetric)
    → origins_conserved res ≡ true
    → origins_conserved m ≡ true
    → origins_conserved (copy_into res m) ≡ true
unfolding copy_into origins_conserved
copy_into-conserved res [] h c = h
copy_into-conserved res ((k, v) ∷ m) h c =
    copy_into-conserved (insert k v res) m (insert-conserved k v res (ground arith) h)
      (ground arith)

-- One origin of the pipeline: its name, and how its outcomes were bundled and merged.
abbrev pub OriginPlan : Type 0
OriginPlan = List ℕ × Plan Bool

-- The summary of an origin enters the second combiner as the first one's output.
abbrev pub summarize : OriginPlan → OriginSummary
summarize (o, p) = record { origin = o; metric = extract_output (run_origin p) }

abbrev add_origin : PipelineMetrics → OriginPlan → PipelineMetrics
add_origin m op = add_summary m (summarize op)

unfoldable pub run_summary : Plan OriginPlan → PipelineMetrics
run_summary p = extract_summary (run create_summary add_origin merge_summaries p)

summarize-IsConservedOrigin : (op : OriginPlan) → IsConservedOrigin (summarize op).metric
unfolding extract_output
summarize-IsConservedOrigin (o, p) = (run_origin-IsConserved p).conserved

create-IsConservedSummary : IsConservedSummary create_summary
unfolding origins_conserved
create-IsConservedSummary = record {
  total = sym (add64_zero (pos 0) (omega arith));
  per_origin = refl;
}

add_origin-IsConservedSummary :
    (m : PipelineMetrics) (op : OriginPlan)
    → IsConservedSummary m
    → IsConservedSummary (add_origin m op)
unfolding add_summary
add_origin-IsConservedSummary m op h =
    let om = (summarize op).metric in
    let c = summarize-IsConservedOrigin op in
    record {
      total =
          ap (λ t. add64 t om.total_read) h.total
          ∙ ap (λ t. add64 (add64 m.rows_written m.dead_letter_count) t) c
          ∙ add64_interchange m.rows_written m.dead_letter_count om.valid om.dlq;
      per_origin = insert-conserved (summarize op).origin om m.origin_metrics c h.per_origin;
    }

merge-IsConservedSummary :
    (a b : PipelineMetrics)
    → IsConservedSummary a
    → IsConservedSummary b
    → IsConservedSummary (merge_summaries a b)
unfolding merge_summaries
merge-IsConservedSummary a b h k = record {
  total =
      ap (λ t. add64 t b.total_records_read) h.total
      ∙ ap (λ t. add64 (add64 a.rows_written a.dead_letter_count) t) k.total
      ∙ add64_interchange a.rows_written a.dead_letter_count b.rows_written b.dead_letter_count;
  per_origin =
      copy_into-conserved (copy_into [] a.origin_metrics) b.origin_metrics
        (copy_into-conserved [] a.origin_metrics (unfold origins_conserved in refl) h.per_origin)
        k.per_origin;
}

-- The conservation invariant: whatever the outcomes of the records and however the runner bundles
-- and merges them, the summary passes both of its checks.
pub run_summary-conserved :
    (p : Plan OriginPlan)
    → (is_strictly_conserved (run_summary p) ≡ true)
      × (is_conserved_per_origin (run_summary p) ≡ true)
unfolding run_summary is_strictly_conserved is_conserved_per_origin extract_summary
run_summary-conserved p =
    let h =
      run-P create_summary add_origin merge_summaries IsConservedSummary create-IsConservedSummary
        add_origin-IsConservedSummary merge-IsConservedSummary p in
    (eqb_ℤ_refl _ _ h.total, h.per_origin)
