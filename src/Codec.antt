-- ===== src/Codec.antt =====
-- crates/core/src/encryption/blobs.rs: the formats in which a blob file holds a file's bytes.
pub mod Reader
pub mod Frame
pub mod Payload
pub mod Encode
pub mod Decode
pub mod Blob
pub mod Agreement
pub mod RoundTrip
pub mod Refusals
pub mod Ends
pub mod Digest
