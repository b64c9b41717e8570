-- ===== src/Coder.antt =====
-- The binary coders of internal/beam/core: null masks, field values, records, dead letters, metrics.
pub mod Mask
pub mod Field
pub mod Entries
pub mod GenericRecord
pub mod DeadLetter
pub mod Metrics
