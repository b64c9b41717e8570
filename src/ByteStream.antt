-- ===== src/ByteStream.antt =====
-- The splittable file source, internal/beam/streams/byte_stream_sdf.go: how a file is cut into
-- chunks, and which records the worker of a chunk reads.
pub mod Chunks
pub mod Records
pub mod Worker
pub mod Lines
pub mod Coverage
pub mod Split
pub mod Sync
