-- ===== src/Validate.antt =====
-- Casting and validation of records: internal/beam/core/cast_and_validate.go and
-- internal/beam/core/fused_enrich_and_validate.go, over the schema of internal/domain/schema.go.
pub mod Plan
pub mod Process
pub mod Enrich
pub mod Outcome
pub mod Fits
pub mod Outputs
pub mod Redaction
pub mod AuditFields
