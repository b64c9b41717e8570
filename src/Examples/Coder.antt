-- ===== src/Examples/Coder.antt =====
-- Theorems of the coders of internal/beam/core/coders.go at concrete records, and runs of them.
use omnibeam_go.Common.{
  ℕ, ◌≤◌, ◌≡◌, refl, some, List, [], ◌∷◌, ◌++◌, length, arith, str_eq_iff, All,
}
use omnibeam_go.Common.Int.{ℤ, pos, negsuc}
use omnibeam_go.Common.Text.{codes}
use omnibeam_go.Common.Instant.{zero_instant, unix_nano, of_unix_nano}
use omnibeam_go.Watermark.{wm_integer}
use omnibeam_go.Common.Word.{wrap64, to_u64, of_u64, to_u64-IsU64, IsU64, IsI32, IsI64}
use omnibeam_go.Common.Dict.{Dict, lookup, IsMap}
use omnibeam_go.Wire.Reader.{ok}
use omnibeam_go.Wire.Bytes.{default_chunk_size_bytes}
use omnibeam_go.Record.{
  FieldValue, GenericRecord, DeadLetterRecord, type_string, null_value, string_value, decimal_value,
}
use omnibeam_go.Metrics.{any_int, PipelineMetrics, new_pipeline_metrics, OriginMetric}
use omnibeam_go.Coder.Field.RoundTrip.{IsEncodable}
use omnibeam_go.Coder.Mask.{set_byte_bit, mark_nulls, write_null_mask}
use omnibeam_go.Common.Bits.{set_bit}
use omnibeam_go.Coder.GenericRecord.{encode_generic_record, decode_generic_record}
use omnibeam_go.Coder.GenericRecord.RoundTrip.{restored_record, IsEncodableRecord, decode-encode}
use omnibeam_go.Coder.DeadLetter.{
  encode_dead_letter_record, decode_dead_letter_record, decode-encode_dead_letter,
}
use omnibeam_go.Coder.Metrics.{counters, encode_pipeline_metrics, decode_pipeline_metrics}
use omnibeam_go.Coder.Metrics.RoundTrip.{
  carried, IsEncodableMetrics, IsEncodableOrigin, decode-encode_metrics,
}

abbrev three_values : List FieldValue
three_values =
    string_value (97 ∷ []) ∷ null_value type_string ∷ decimal_value (negsuc 41) (pos 2) ∷ []

abbrev a_record : GenericRecord
a_record = record {
  schema_id = 115 ∷ [];
  values = three_values;
  audit_fields = (98 ∷ [], 99 ∷ []) ∷ [];
}

write_null_mask_of_three : write_null_mask three_values ≡ 2 ∷ []
unfolding write_null_mask decimal_value mark_nulls set_byte_bit set_bit
write_null_mask_of_three = refl

a_value-IsEncodable :
    (fv : FieldValue)
    → IsU64 fv.num_val
    → IsI32 fv.scale
    → length fv.str_val ≤ default_chunk_size_bytes
    → IsEncodable fv
a_value-IsEncodable fv n s t = record { num = n; scale = s; text = t }

a_record-IsEncodable : IsEncodableRecord a_record
unfolding decimal_value IsMap lookup
a_record-IsEncodable = record {
  name = omega arith;
  count = omega arith;
  fields = (
    a_value-IsEncodable (string_value (97 ∷ [])) (omega arith) (omega arith) (omega arith),
    (
      a_value-IsEncodable (null_value type_string) (omega arith) (omega arith) (omega arith),
      (
        a_value-IsEncodable (decimal_value (negsuc 41) (pos 2)) (to_u64-IsU64 (negsuc 41))
            (omega arith) (omega arith),
        tt,
      ),
    ),
  );
  audit_map = (refl, tt);
  audit_texts = ((omega arith, omega arith), tt);
  audit_count = omega arith;
}

decode-encode_example :
    decode_generic_record (encode_generic_record (some a_record) ++ 7 ∷ [])
    ≡ (ok (some (restored_record a_record)), 7 ∷ [])
decode-encode_example = decode-encode a_record (7 ∷ []) a_record-IsEncodable

abbrev a_dead_letter : DeadLetterRecord
a_dead_letter = record {
  raw_payload = 120 ∷ 121 ∷ [];
  error_message = 101 ∷ [];
  failed_column = [];
  source_file = 102 ∷ [];
  failed_at = record { seconds = pos 1700000000; nanos = 5 };
}

decode-encode_dead_letter_example :
    decode_dead_letter_record (encode_dead_letter_record (some a_dead_letter) ++ 7 ∷ [])
    ≡ (ok (some a_dead_letter), 7 ∷ [])
decode-encode_dead_letter_example =
    decode-encode_dead_letter a_dead_letter (7 ∷ [])
      (record {
        raw = omega arith;
        message = omega arith;
        column = omega arith;
        file = omega arith;
      })
      (omega arith) (omega arith, omega arith)

-- The zero time is read back as an instant of August 1754.
restored_zero_time :
    of_unix_nano (unix_nano zero_instant)
    ≡ record { seconds = negsuc 6795364578; nanos = 128654848 }
unfolding unix_nano of_unix_nano wrap64 to_u64 of_u64
restored_zero_time = refl

abbrev some_counts : Dict ℤ
some_counts = (98 ∷ [], pos 2) ∷ (97 ∷ [], pos 1) ∷ []

abbrev same_counts : Dict ℤ
same_counts = (97 ∷ [], pos 1) ∷ (98 ∷ [], pos 2) ∷ []

some_counts-IsMap : IsMap some_counts
unfolding IsMap lookup
some_counts-IsMap = (ground (arith, str_eq_iff (97 ∷ []) (98 ∷ [])), (refl, tt))

same_counts-IsMap : IsMap same_counts
unfolding IsMap lookup
same_counts-IsMap = (ground (arith, str_eq_iff (98 ∷ []) (97 ∷ [])), (refl, tt))

same_lookup : (k : List ℕ) → lookup k some_counts ≡ lookup k same_counts
unfolding lookup
same_lookup k = ground (arith, str_eq_iff (98 ∷ []) k, str_eq_iff (97 ∷ []) k)

abbrev an_origin : OriginMetric
an_origin = record { total_read = pos 3; valid = pos 2; dlq = pos 1 }

abbrev some_metrics : PipelineMetrics
some_metrics = record (new_pipeline_metrics (112 ∷ []) (114 ∷ [])) {
  total_records_read = pos 3;
  rows_written = pos 2;
  dead_letter_count = pos 1;
  origin_metrics = (111 ∷ [], an_origin) ∷ [];
  column_null_counts = some_counts;
  watermark = some (record { column = codes "id"; type_ = wm_integer; value = some (codes "9") });
  custom_metrics = (codes "rate", any_int (pos 4)) ∷ [];
}

an_origin-IsEncodable : IsEncodableOrigin an_origin
an_origin-IsEncodable = record { total = omega arith; valid = omega arith; dlq = omega arith }

small_counts : All IsI64 (counters some_metrics)
small_counts = ground arith

some_metrics-IsEncodable : IsEncodableMetrics some_metrics
unfolding IsMap lookup
some_metrics-IsEncodable = record {
  pipeline = omega arith;
  run = omega arith;
  counts = small_counts;
  sum = omega arith;
  nulls = record {
    is_map = some_counts-IsMap;
    entries = ((omega arith, omega arith), ((omega arith, omega arith), tt));
    count = omega arith;
  };
  invalid = record { is_map = tt; entries = tt; count = omega arith };
  origins = record {
    is_map = (refl, tt);
    entries = ((omega arith, an_origin-IsEncodable), tt);
    count = omega arith;
  };
}

decode-encode_metrics_example :
    decode_pipeline_metrics (encode_pipeline_metrics some_metrics ++ 7 ∷ [])
    ≡ (ok (carried some_metrics), 7 ∷ [])
decode-encode_metrics_example = decode-encode_metrics some_metrics (7 ∷ []) some_metrics-IsEncodable
