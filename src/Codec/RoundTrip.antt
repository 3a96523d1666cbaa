-- ===== src/Codec/RoundTrip.antt =====
-- Blobs of crates/core/src/encryption/blobs.rs, written and read back.
pub mod Chunks
pub mod Plain
pub mod Headers
pub mod Whole
pub mod Total
pub mod Available
