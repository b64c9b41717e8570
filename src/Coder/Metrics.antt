-- ===== src/Coder/Metrics.antt =====
-- `EncodePipelineMetrics` and `DecodePipelineMetrics` of internal/beam/core/coders.go, and
-- `EncodeMetricItem` and `DecodeMetricItem` of metrics_combiner.go.
pub mod RoundTrip
use omnibeam_go.Common.{
  ℕ, zero, suc, Bool, true, false, none, List, [], ◌∷◌, ◌++◌, get_or, ◌==◌, if◌then◌else◌,
}
use omnibeam_go.Common.Int.{ℤ, pos}
use omnibeam_go.Common.Dict.{Dict}
use omnibeam_go.Common.Keys.{sorted_entries}
use omnibeam_go.Wire.Reader.{Reader, Error, is_nil_token, ◌>>=◌, pure, throw, catch, read_full}
use omnibeam_go.Wire.Varint.{write_varint, read_varint}
use omnibeam_go.Wire.Bytes.{write_string, read_string}
use omnibeam_go.Metrics.{OriginMetric, zero_origin, PipelineMetrics}
use omnibeam_go.Coder.Entries.{write_map, read_map}

-- The keys are sorted, and the map is visited in their order.
unfoldable pub write_map_string_int64 : Dict ℤ → List ℕ
write_map_string_int64 m = write_map write_varint (sorted_entries (pos 0) m)

unfoldable pub read_map_string_int64 : Reader (Dict ℤ)
read_map_string_int64 = read_map read_varint

unfoldable pub write_origin : OriginMetric → List ℕ
write_origin v = write_varint v.total_read ++ (write_varint v.valid ++ write_varint v.dlq)

abbrev pub finish_origin : ℤ → ℤ → ℤ → Reader OriginMetric
finish_origin total valid dlq = pure (record { total_read = total; valid = valid; dlq = dlq })

unfoldable pub read_origin : Reader OriginMetric
read_origin = do
  total ← read_varint
  valid ← read_varint
  dlq ← read_varint
  finish_origin total valid dlq

unfoldable pub write_origin_metrics : Dict OriginMetric → List ℕ
write_origin_metrics m = write_map write_origin (sorted_entries zero_origin m)

unfoldable pub read_origin_metrics : Reader (Dict OriginMetric)
read_origin_metrics = read_map read_origin

unfoldable pub write_varints : List ℤ → List ℕ
write_varints [] = []
write_varints (v ∷ vs) = write_varint v ++ write_varints vs

-- `n` varints, in the order in which they stand.
unfoldable pub read_varints : ℕ → Reader (List ℤ)
read_varints zero = pure []
read_varints (suc n) = do v ← read_varint; vs ← read_varints n; pure (v ∷ vs)

abbrev pub counters : PipelineMetrics → List ℤ
counters m =
    m.total_records_read ∷ m.row_count ∷ m.rows_written ∷ m.dead_letter_count ∷ m.bytes_written
    ∷ m.files_written ∷ m.api_calls_made ∷ m.execution_duration_ms ∷ []

unfoldable pub encode_pipeline_metrics : PipelineMetrics → List ℕ
encode_pipeline_metrics m =
    write_string m.pipeline_id
    ++ (write_string m.run_id
        ++ (write_varints (counters m)
            ++ (write_string m.checksum
                ++ (write_map_string_int64 m.column_null_counts
                    ++ (write_map_string_int64 m.invalid_value_counts
                        ++ write_origin_metrics m.origin_metrics)))))

-- The value that the decoder returns; the rates, the watermark and the custom metrics are not on the wire.
-- They stay zero, nil and empty.
unfoldable pub decoded_metrics :
    List ℕ → List ℕ → List ℤ → List ℕ → Dict ℤ → Dict ℤ → Dict OriginMetric → PipelineMetrics
decoded_metrics pid rid vals sum nulls invalid origins = record {
  pipeline_id = pid;
  run_id = rid;
  total_records_read = get_or vals 0 (pos 0);
  row_count = get_or vals 1 (pos 0);
  rows_written = get_or vals 2 (pos 0);
  dead_letter_count = get_or vals 3 (pos 0);
  bytes_written = get_or vals 4 (pos 0);
  files_written = get_or vals 5 (pos 0);
  api_calls_made = get_or vals 6 (pos 0);
  checksum = sum;
  execution_duration_ms = get_or vals 7 (pos 0);
  records_per_second = 0;
  throughput_mb_per_second = 0;
  watermark = none;
  origin_metrics = origins;
  column_null_counts = nulls;
  invalid_value_counts = invalid;
  custom_metrics = [];
}

abbrev pub decode_maps : List ℕ → List ℕ → List ℤ → List ℕ → Reader PipelineMetrics
decode_maps pid rid vals sum = do
  nulls ← read_map_string_int64
  invalid ← read_map_string_int64
  origins ← read_origin_metrics
  pure (decoded_metrics pid rid vals sum nulls invalid origins)

unfoldable pub decode_pipeline_metrics : Reader PipelineMetrics
decode_pipeline_metrics = do
  pid ← read_string
  rid ← read_string
  vals ← read_varints 8
  sum ← read_string
  decode_maps pid rid vals sum

pub record MetricItem : Type 0 where
  pub origin : List ℕ
  pub is_dlq : Bool

unfoldable pub encode_metric_item : MetricItem → List ℕ
encode_metric_item v = (if v.is_dlq then 1 else 0) ∷ write_string v.origin

-- An origin that is the nil token is read as the empty string.
unfoldable pub read_item_origin : Reader (List ℕ)
read_item_origin = catch read_string (λ e. if is_nil_token e then pure [] else throw e)

abbrev pub read_item : List ℕ → Reader MetricItem
read_item b = do
  origin ← read_item_origin
  pure (record { origin = origin; is_dlq = get_or b 0 0 == 1 })

unfoldable pub decode_metric_item : Reader MetricItem
decode_metric_item = do b ← read_full 1; read_item b
