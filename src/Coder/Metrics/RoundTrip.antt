-- ===== src/Coder/Metrics/RoundTrip.antt =====
-- Decoding what the metrics coders wrote.
use omnibeam_go.Common.{
  none, ℕ, ◌≤◌, ◌<◌, ◌^◌, ◌≡◌, refl, ap, ◌∙◌, Bool, true, false, List, [], ◌∷◌, ◌++◌, length, All,
  arith, append_assoc, ◌==◌, if◌then◌else◌,
}
use omnibeam_go.Common.Int.{ℤ, pos}
use omnibeam_go.Common.Word.{IsI64}
use omnibeam_go.Common.Dict.{Dict, IsMap, lookup}
use omnibeam_go.Common.Keys.{sorted_entries}
use omnibeam_go.Common.Keys.Visit.{
  sorted_entries-IsMap, sorted_entries_unique, length-sorted_entries, All-sorted_entries,
}
use omnibeam_go.Wire.Reader.{
  Reader, Error, ok, ◌>>=◌, pure, throw, catch, bind-ok, catch-ok, is_nil_token, read_full,
  read_full-append,
}
use omnibeam_go.Wire.Varint.{write_varint, read_varint}
use omnibeam_go.Wire.Varint.RoundTrip.{read_varint-write_varint}
use omnibeam_go.Wire.Bytes.{
  write_string, read_string, default_chunk_size_bytes, read_bytes-write_bytes,
}
use omnibeam_go.Metrics.{OriginMetric, zero_origin, PipelineMetrics}
use omnibeam_go.Coder.Entries.{IsWritable, write_map, read_map, read_map-write_map}
use omnibeam_go.Coder.Metrics.{
  write_map_string_int64, read_map_string_int64, write_origin, finish_origin, read_origin,
  write_origin_metrics, read_origin_metrics, write_varints, read_varints, counters,
  encode_pipeline_metrics, decoded_metrics, decode_maps, decode_pipeline_metrics, MetricItem,
  encode_metric_item, read_item_origin, read_item, decode_metric_item,
}

-- A map of the program that the coder's limits admit.
pub record IsEncodableMap {V : Type 0} (P : V → Type 0) (m : Dict V) : Type 0 where
  pub is_map : IsMap m
  pub entries : IsWritable P m
  pub count : length m < 2 ^ 63

module _ {V : Type 0} (z : V) (write_value : V → List ℕ) (read_value : Reader V) (P : V → Type 0)
    (value_back : (v : V) (rest : List ℕ)
      → P v
      → read_value (write_value v ++ rest) ≡ (ok v, rest)) where
  sorted_map_back :
      (m : Dict V) (rest : List ℕ)
      → IsEncodableMap P m
      → read_map read_value (write_map write_value (sorted_entries z m) ++ rest)
        ≡ (ok (sorted_entries z m), rest)
  sorted_map_back m rest h =
      read_map-write_map write_value read_value P value_back (sorted_entries z m) rest
        (sorted_entries-IsMap z m h.is_map)
        (All-sorted_entries z (λ e. (length e.0 ≤ default_chunk_size_bytes) × P e.1) m h.entries)
        (omega (arith, length-sorted_entries z m, h.count))

-- A map of int64 counts is read back with its keys sorted.
pub read_map_string_int64-write :
    (m : Dict ℤ) (rest : List ℕ)
    → IsEncodableMap IsI64 m
    → read_map_string_int64 (write_map_string_int64 m ++ rest)
      ≡ (ok (sorted_entries (pos 0) m), rest)
unfolding read_map_string_int64 write_map_string_int64
read_map_string_int64-write m rest h =
    sorted_map_back (pos 0) write_varint read_varint IsI64 read_varint-write_varint m rest h

pub record IsEncodableOrigin (om : OriginMetric) : Type 0 where
  pub total : IsI64 om.total_read
  pub valid : IsI64 om.valid
  pub dlq : IsI64 om.dlq

read_origin-write_origin :
    (om : OriginMetric) (rest : List ℕ)
    → IsEncodableOrigin om
    → read_origin (write_origin om ++ rest) ≡ (ok om, rest)
unfolding read_origin write_origin
read_origin-write_origin om rest h =
    let dlq : List ℕ = write_varint om.dlq ++ rest in
    let valid : List ℕ = write_varint om.valid ++ dlq in
    simp append_assoc (
      bind-ok read_varint (λ t. read_varint >>= λ v. read_varint >>= finish_origin t v) _
        (read_varint-write_varint om.total_read valid h.total)
      ∙ bind-ok read_varint (λ v. read_varint >>= finish_origin om.total_read v) valid
          (read_varint-write_varint om.valid dlq h.valid)
      ∙ bind-ok read_varint (finish_origin om.total_read om.valid) dlq
          (read_varint-write_varint om.dlq rest h.dlq))

read_origin_metrics-write :
    (m : Dict OriginMetric) (rest : List ℕ)
    → IsEncodableMap IsEncodableOrigin m
    → read_origin_metrics (write_origin_metrics m ++ rest)
      ≡ (ok (sorted_entries zero_origin m), rest)
unfolding read_origin_metrics write_origin_metrics
read_origin_metrics-write m rest h =
    sorted_map_back zero_origin write_origin read_origin IsEncodableOrigin read_origin-write_origin
      m rest h

read_varints-write_varints :
    (vs : List ℤ) (rest : List ℕ)
    → All IsI64 vs
    → read_varints (length vs) (write_varints vs ++ rest) ≡ (ok vs, rest)
unfolding read_varints write_varints
read_varints-write_varints [] rest h = refl
read_varints-write_varints (v ∷ vs) rest h =
    let more : List ℕ = write_varints vs ++ rest in
    rw (append_assoc (write_varint v) (write_varints vs) rest) (
      bind-ok read_varint (λ v. read_varints (length vs) >>= λ vs. pure (v ∷ vs)) _
        (read_varint-write_varint v more h.0)
      ∙ bind-ok (read_varints (length vs)) (λ vs. pure (v ∷ vs)) more
          (read_varints-write_varints vs rest h.1))

pub record IsEncodableMetrics (m : PipelineMetrics) : Type 0 where
  pub pipeline : length m.pipeline_id ≤ default_chunk_size_bytes
  pub run : length m.run_id ≤ default_chunk_size_bytes
  pub counts : All IsI64 (counters m)
  pub sum : length m.checksum ≤ default_chunk_size_bytes
  pub nulls : IsEncodableMap IsI64 m.column_null_counts
  pub invalid : IsEncodableMap IsI64 m.invalid_value_counts
  pub origins : IsEncodableMap IsEncodableOrigin m.origin_metrics

-- What the wire carries of the metrics: all but the rates, the watermark and the custom metrics, with the
-- maps in the order of their keys.
unfoldable pub carried : PipelineMetrics → PipelineMetrics
carried m = record m {
  records_per_second = 0;
  throughput_mb_per_second = 0;
  watermark = none;
  origin_metrics = sorted_entries zero_origin m.origin_metrics;
  column_null_counts = sorted_entries (pos 0) m.column_null_counts;
  invalid_value_counts = sorted_entries (pos 0) m.invalid_value_counts;
  custom_metrics = [];
}

module _ (m : PipelineMetrics) (rest : List ℕ) (h : IsEncodableMetrics m) where
  decode_maps-write :
      decode_maps m.pipeline_id m.run_id (counters m) m.checksum (
        write_map_string_int64 m.column_null_counts
        ++ (write_map_string_int64 m.invalid_value_counts
            ++ (write_origin_metrics m.origin_metrics ++ rest)))
      ≡ (ok (carried m), rest)
  unfolding carried decoded_metrics
  decode_maps-write =
      let result = decoded_metrics m.pipeline_id m.run_id (counters m) m.checksum in
      let nulls : Dict ℤ = sorted_entries (pos 0) m.column_null_counts in
      let invalid : Dict ℤ = sorted_entries (pos 0) m.invalid_value_counts in
      let origins : List ℕ = write_origin_metrics m.origin_metrics ++ rest in
      let more : List ℕ = write_map_string_int64 m.invalid_value_counts ++ origins in
      bind-ok read_map_string_int64
        (λ n. read_map_string_int64 >>= λ i. read_origin_metrics >>= λ o. pure (result n i o)) _
        (read_map_string_int64-write m.column_null_counts more h.nulls)
      ∙ bind-ok read_map_string_int64 (λ i. read_origin_metrics >>= λ o. pure (result nulls i o))
          more (read_map_string_int64-write m.invalid_value_counts origins h.invalid)
      ∙ bind-ok read_origin_metrics (λ o. pure (result nulls invalid o)) origins
          (read_origin_metrics-write m.origin_metrics rest h.origins)

  -- Metrics within the coder's limits are decoded from their encoding, with what follows left: the counters,
  -- the texts and the maps of counts and of origins, the maps in the order of their keys, with the two rates
  -- zero, without the watermark and without the custom metrics.
  pub decode-encode_metrics :
      decode_pipeline_metrics (encode_pipeline_metrics m ++ rest) ≡ (ok (carried m), rest)
  unfolding decode_pipeline_metrics encode_pipeline_metrics
  decode-encode_metrics =
      let maps : List ℕ =
        write_map_string_int64 m.column_null_counts
        ++ (write_map_string_int64 m.invalid_value_counts
            ++ (write_origin_metrics m.origin_metrics ++ rest)) in
      let sum : List ℕ = write_string m.checksum ++ maps in
      let vals : List ℕ = write_varints (counters m) ++ sum in
      let run : List ℕ = write_string m.run_id ++ vals in
      simp append_assoc (
        bind-ok read_string
          (λ pid.
            read_string >>= λ rid. read_varints 8 >>= λ vs. read_string >>= decode_maps pid rid vs)
          _ (read_bytes-write_bytes m.pipeline_id run h.pipeline)
        ∙ bind-ok read_string
            (λ rid. read_varints 8 >>= λ vs. read_string >>= decode_maps m.pipeline_id rid vs) run
            (read_bytes-write_bytes m.run_id vals h.run)
        ∙ bind-ok (read_varints 8) (λ vs. read_string >>= decode_maps m.pipeline_id m.run_id vs)
            vals (read_varints-write_varints (counters m) sum h.counts)
        ∙ bind-ok read_string (decode_maps m.pipeline_id m.run_id (counters m)) sum
            (read_bytes-write_bytes m.checksum maps h.sum)
        ∙ decode_maps-write)

-- The order in which a map is listed does not show on the wire.
write_map_string_int64_unique :
    (m m' : Dict ℤ)
    → IsMap m
    → IsMap m'
    → ((k : List ℕ) → lookup k m ≡ lookup k m')
    → write_map_string_int64 m ≡ write_map_string_int64 m'
unfolding write_map_string_int64
write_map_string_int64_unique m m' h h' same =
    ap (write_map write_varint) (sorted_entries_unique (pos 0) m m' h h' same)

item_tag : (b : Bool) → ((if b then 1 else 0) == 1) ≡ b
item_tag true = refl
item_tag false = refl

-- A metric item is read back whole.
decode-encode_metric_item :
    (v : MetricItem) (rest : List ℕ)
    → length v.origin ≤ default_chunk_size_bytes
    → decode_metric_item (encode_metric_item v ++ rest) ≡ (ok v, rest)
unfolding decode_metric_item encode_metric_item read_item_origin
decode-encode_metric_item v rest h =
    let tag : List ℕ = (if v.is_dlq then 1 else 0) ∷ [] in
    let handler : Error → Reader (List ℕ) = λ e. if is_nil_token e then pure [] else throw e in
    bind-ok (read_full 1) read_item _ (read_full-append tag (write_string v.origin ++ rest))
    ∙ bind-ok (catch read_string handler)
        (λ o. pure (record { origin = o; is_dlq = (if v.is_dlq then 1 else 0) == 1 }))
        (write_string v.origin ++ rest)
        (catch-ok read_string handler _ (read_bytes-write_bytes v.origin rest h))
    ∙ ap (λ b. pure (record { origin = v.origin; is_dlq = b }) rest) (item_tag v.is_dlq)
