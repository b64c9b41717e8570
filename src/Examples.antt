-- ===== src/Examples.antt =====
-- The theorems at concrete inputs, and runs of the modelled code.
pub mod Wire
pub mod Coder
pub mod Batch
pub mod BatchBuffer
pub mod Coercion
pub mod Combine
pub mod Tracker
pub mod ByteStream
pub mod Sql
pub mod Watermark
pub mod Validate
pub mod Resilience
pub mod Numbers
pub mod Metrics
