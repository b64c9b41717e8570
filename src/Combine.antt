-- ===== src/Combine.antt =====
-- The combiners of internal/beam/core/metrics_combiner.go: counts per origin, and the summary.
pub mod Lifting
pub mod Origins
pub mod Summary
use omnibeam_go.Common.{ℕ, Bool, List, [], ◌∷◌, if◌then◌else◌}
use omnibeam_go.Common.Int.{ℤ, pos}
use omnibeam_go.Common.Word.{add64}
use omnibeam_go.Common.Dict.{Dict, insert}
use omnibeam_go.Metrics.{OriginMetric, PipelineMetrics, new_pipeline_metrics}

pub record OriginAccumulator : Type 0 where
  pub total_read : ℤ
  pub valid : ℤ
  pub dlq : ℤ

-- `OriginCombinerFn`
abbrev pub create_accumulator : OriginAccumulator
create_accumulator = record { total_read = pos 0; valid = pos 0; dlq = pos 0 }

unfoldable pub add_input : OriginAccumulator → Bool → OriginAccumulator
add_input a is_dlq =
    let a' = record a { total_read = add64 a.total_read (pos 1) } in
    if is_dlq
    then record a' { dlq = add64 a'.dlq (pos 1) }
    else record a' { valid = add64 a'.valid (pos 1) }

unfoldable pub merge_accumulators : OriginAccumulator → OriginAccumulator → OriginAccumulator
merge_accumulators a b = record {
  total_read = add64 a.total_read b.total_read;
  valid = add64 a.valid b.valid;
  dlq = add64 a.dlq b.dlq;
}

unfoldable pub extract_output : OriginAccumulator → OriginMetric
extract_output a = record { total_read = a.total_read; valid = a.valid; dlq = a.dlq }

pub record OriginSummary : Type 0 where
  pub origin : List ℕ
  pub metric : OriginMetric

-- `MetricsSummaryCombinerFn`
abbrev pub create_summary : PipelineMetrics
create_summary = new_pipeline_metrics [] []

unfoldable pub add_summary : PipelineMetrics → OriginSummary → PipelineMetrics
add_summary a item = record a {
  total_records_read = add64 a.total_records_read item.metric.total_read;
  rows_written = add64 a.rows_written item.metric.valid;
  dead_letter_count = add64 a.dead_letter_count item.metric.dlq;
  origin_metrics = insert item.origin item.metric a.origin_metrics;
}

-- `for k, v := range m { res[k] = v }`
unfoldable pub copy_into : Dict OriginMetric → Dict OriginMetric → Dict OriginMetric
copy_into res [] = res
copy_into res ((k, v) ∷ m) = copy_into (insert k v res) m

-- Only the three totals and the origins are merged; every other field is a zero value.
unfoldable pub merge_summaries : PipelineMetrics → PipelineMetrics → PipelineMetrics
merge_summaries a b = record create_summary {
  total_records_read = add64 a.total_records_read b.total_records_read;
  rows_written = add64 a.rows_written b.rows_written;
  dead_letter_count = add64 a.dead_letter_count b.dead_letter_count;
  origin_metrics = copy_into (copy_into [] a.origin_metrics) b.origin_metrics;
}

unfoldable pub extract_summary : PipelineMetrics → PipelineMetrics
extract_summary a = a
