-- ===== src/Wire.antt =====
-- The byte-level helpers of internal/beam/core/coders_helpers.go: readers over an io.Reader, signed
-- varints, and length-prefixed byte strings.
pub mod Reader
pub mod Varint
pub mod Bytes
