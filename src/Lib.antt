-- ===== src/Lib.antt =====
-- omnibeam-go moves records between files, databases, paged APIs and BigQuery in an Apache Beam
-- pipeline: a splittable source reads records, each is cast and validated, and becomes a valid
-- record or a dead letter; the sinks write both, and two combiners count them per origin.
--
-- Which file models which part (paths from the repository's root):
--   Record         internal/domain/record.go, schema.go: data types, values, records, dead letters
--   Metrics        internal/domain/metrics.go: PipelineMetrics, its counters and its two checks;
--                  Metrics/Events runs the atomic steps of the counters in any order
--   Wire           internal/beam/core/coders_helpers.go: readVarint, writeVarint, readBytes,
--                  writeBytes and their string forms, over a reader that returns errors as values;
--                  Wire/Bytes/Untrusted is about input that nobody encoded
--   Coder          internal/beam/core/coders.go and coders_helpers.go: the null mask (Coder/Mask),
--                  the values (Coder/Field), maps (Coder/Entries), and the encoder and decoder of
--                  GenericRecord, DeadLetterRecord, PipelineMetrics and MetricItem, which use Wire
--   Batch          internal/domain/record_batch.go: the columns and bitmaps of a batch, its
--                  operations and its iterator; Batch/Rows forgets the columns, Batch/Refinement
--                  compares with a list of rows; Batch/Coder is
--                  internal/beam/core/record_batch_coder.go
--   BatchBuffer    internal/beam/core/batch_buffer.go, under any sequence of calls
--   Coercion       internal/domain/coercion.go for integers, booleans and decimals (Decimal), and
--                  FormatDecimal of internal/domain/record.go; Scan, Nearest, DecimalExact and
--                  RoundTrip are the proofs
--   Combine        internal/beam/core/metrics_combiner.go: OriginCombinerFn and
--                  MetricsSummaryCombinerFn; Combine/Lifting runs a combiner over any bundling, as
--                  applyMetricsStage of internal/beam/core/graph_builder.go has the runner do
--   Tracker        internal/beam/streams/byte_offset_tracker.go, internal/beam/paged_api/
--                  page_tracker.go, internal/beam/partitions/partition_tracker.go: one state and
--                  one claim for the three, the two kinds of split apart; Tracker/Laws is what a
--                  source relies on, Tracker/Runs are any sequences of calls
--   ByteStream     internal/beam/streams/byte_stream_sdf.go: SplitRestriction (Chunks),
--                  readRecordBytes (Records), the feeder of ProcessElement on a tracker (Worker);
--                  Lines describes the lines of a file without a reader, Coverage says what one
--                  worker reads, Split what all of them read; Sync is
--                  SyncToNextRecordBoundary of byte_offset_tracker.go
--   Validate       internal/beam/core/cast_and_validate.go and fused_enrich_and_validate.go: the plan
--                  of a field (Plan), the step and what it emits in order (Process), the audit
--                  fields of a run (Enrich); Fits, Outputs, Outcome, Redaction and AuditFields are
--                  its proofs. The coercions, the formatting of messages and the
--                  sanitizer are arguments of which nothing is assumed
--   Resilience     pkg/resilience/circuit_breaker.go (Breaker, and BreakerRuns and Failures over any
--                  interleaving of the steps of its calls), adaptive_batch.go (Sizer, SizerBounds)
--                  and Retry of backoff.go (Retry)
--   Numbers        pkg/fastnum/fastnum.go: ParseInt64
--   Sql            internal/adapters/partitions/sql/range_slicer.go and the slices of
--                  generic_sql_source.go, with the rows that they select (Coverage); Sql/Stream runs
--                  streamRows against ProcessElement of internal/beam/partitions/
--                  partition_query_sdf.go on two bounded channels, in any interleaving
--   Watermark      internal/domain/watermark_value.go and watermark_config.go; Watermark/Maximum
--                  and Output are cmd/pipeline/watermark_output.go, with the parquet library as a
--                  parameter, which Greatest, Scan and Settled are about; Watermark/Query is the query of
--                  internal/domain/config_database.go, which Literal, Replace and Injection read as SQL;
--                  Watermark/Pipeline is validateWatermark of internal/domain/config.go
--   Common         helpers: numbers, machine words, maps as association lists, sorted keys
--   Examples       the theorems at concrete inputs, and runs
--
-- Conventions. An int64 is an integer and the code's +, - wrap (add64, sub64); a uint64 is a natural
-- number below 2^64, a byte below 256. A Go map is an association list in one order of its keys;
-- encoders sort the keys where the code does. An error is a value with the code's wrapping. A method
-- that holds its mutex throughout is one step. An instant is its seconds and
-- nanoseconds from the Unix epoch (Common/Instant). A float64 is its bit pattern; the float arithmetic of
-- a split's fraction is a parameter (Tracker.Fraction) of which nothing is assumed. The floats and instants
-- of a watermark, with their order, parsers and formats, are a parameter too (Watermark.Formats), of
-- which the order's laws alone are assumed (IsOrdered).
--
-- Fuel. put_uvarint has ten groups of seven bits, enough for 64 bits. split_chunks has a round for
-- each byte of the range, and every round advances. The feeder and the reads of quoted records have
-- one round more than bytes are left, and every round reads a byte or stops. Retry counts the retries
-- that are left. A uint64 has twenty decimal digits at most. The loop over a batch's iterator has a
-- round more than there are rows.
--
-- Not modelled: input and output, the pipe between a feeder and its decoder, decoders and
-- formatters, third-party clients, telemetry, and the parts of the program that no module above
-- names.
pub mod Common
pub mod Wire
pub mod Record
pub mod Metrics
pub mod Coder
pub mod Batch
pub mod BatchBuffer
pub mod Coercion
pub mod Combine
pub mod Tracker
pub mod ByteStream
pub mod Validate
pub mod Resilience
pub mod Numbers
pub mod Sql
pub mod Watermark
pub mod Examples
