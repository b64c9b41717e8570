-- ===== src/Metrics.antt =====
-- The counters of internal/domain/metrics.go.
pub mod Events
use omnibeam_go.Common.{ℕ, Bool, true, ◌&&◌, Option, none, List, [], ◌∷◌}
use omnibeam_go.Common.Int.{ℤ, pos, eqb_ℤ}
use omnibeam_go.Common.Word.{add64}
use omnibeam_go.Common.Dict.{Dict, insert}
use omnibeam_go.Common.Keys.{value_or}
use omnibeam_go.Watermark.Output.{WatermarkOutput}

-- The counts are int64.
pub record OriginMetric : Type 0 where
  pub total_read : ℤ
  pub valid : ℤ
  pub dlq : ℤ

abbrev pub zero_origin : OriginMetric
zero_origin = record { total_read = pos 0; valid = pos 0; dlq = pos 0 }

-- What Go's `any` holds; a value of a type that is not named is known by a number only.
pub data AnyValue : Type 0 where
  any_nil : AnyValue
  any_bool : Bool → AnyValue
  any_int : ℤ → AnyValue
  any_text : List ℕ → AnyValue
  any_other : ℕ → AnyValue

-- The mutex is not part of the model. The two rates are float64 bit patterns.
pub record PipelineMetrics : Type 0 where
  pub pipeline_id : List ℕ
  pub run_id : List ℕ
  pub total_records_read : ℤ
  pub row_count : ℤ
  pub rows_written : ℤ
  pub dead_letter_count : ℤ
  pub bytes_written : ℤ
  pub files_written : ℤ
  pub api_calls_made : ℤ
  pub checksum : List ℕ
  pub execution_duration_ms : ℤ
  pub records_per_second : ℕ
  pub throughput_mb_per_second : ℕ
  pub watermark : Option WatermarkOutput
  pub origin_metrics : Dict OriginMetric
  pub column_null_counts : Dict ℤ
  pub invalid_value_counts : Dict ℤ
  pub custom_metrics : Dict AnyValue

abbrev pub new_pipeline_metrics : List ℕ → List ℕ → PipelineMetrics
new_pipeline_metrics pid rid = record {
  pipeline_id = pid;
  run_id = rid;
  total_records_read = pos 0;
  row_count = pos 0;
  rows_written = pos 0;
  dead_letter_count = pos 0;
  bytes_written = pos 0;
  files_written = pos 0;
  api_calls_made = pos 0;
  checksum = [];
  execution_duration_ms = pos 0;
  records_per_second = 0;
  throughput_mb_per_second = 0;
  watermark = none;
  origin_metrics = [];
  column_null_counts = [];
  invalid_value_counts = [];
  custom_metrics = [];
}

unfoldable pub record_read : PipelineMetrics → PipelineMetrics
record_read m = record m { total_records_read = add64 m.total_records_read (pos 1) }

-- The two atomic steps of `RecordWritten`, between which those of others may fall: the sum, which is
-- kept by the caller too, and the store.
unfoldable pub add_written : PipelineMetrics → PipelineMetrics × ℤ
add_written m = let n = add64 m.rows_written (pos 1) in (record m { rows_written = n }, n)

unfoldable pub store_row_count : ℤ → PipelineMetrics → PipelineMetrics
store_row_count n m = record m { row_count = n }

unfoldable pub record_written : PipelineMetrics → PipelineMetrics
record_written m = let (added, n) = add_written m in store_row_count n added

unfoldable pub record_api_call : PipelineMetrics → PipelineMetrics
record_api_call m = record m { api_calls_made = add64 m.api_calls_made (pos 1) }

unfoldable pub record_dead_letter : PipelineMetrics → PipelineMetrics
record_dead_letter m = record m { dead_letter_count = add64 m.dead_letter_count (pos 1) }

-- `m[col]++`
unfoldable pub increment : List ℕ → Dict ℤ → Dict ℤ
increment col m = insert col (add64 (value_or (pos 0) col m) (pos 1)) m

unfoldable pub add_column_null : List ℕ → PipelineMetrics → PipelineMetrics
add_column_null col m = record m { column_null_counts = increment col m.column_null_counts }

unfoldable pub add_invalid_value : List ℕ → PipelineMetrics → PipelineMetrics
add_invalid_value col m = record m { invalid_value_counts = increment col m.invalid_value_counts }

unfoldable pub is_strictly_conserved : PipelineMetrics → Bool
is_strictly_conserved m = eqb_ℤ m.total_records_read (add64 m.rows_written m.dead_letter_count)

unfoldable pub origins_conserved : Dict OriginMetric → Bool
origins_conserved [] = true
origins_conserved ((k, om) ∷ m) = eqb_ℤ om.total_read (add64 om.valid om.dlq) && origins_conserved m

unfoldable pub is_conserved_per_origin : PipelineMetrics → Bool
is_conserved_per_origin m = origins_conserved m.origin_metrics
