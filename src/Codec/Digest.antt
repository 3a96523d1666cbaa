-- ===== src/Codec/Digest.antt =====
-- The digests of blobs, by the codec of crates/core/src/encryption/blobs.rs.
use backup_sync.Prelude.{[], Str, Result, ok, err}
use backup_sync.Versioned.Disk.{Hashing, StoreError, unreadable}
use backup_sync.Codec.Reader.{CodecError}
use backup_sync.Codec.Payload.{Zstd, Aead}
use backup_sync.Codec.Blob.{BlobCodec, sha256_plaintext_blob}

abbrev pub as_store_error : Result CodecError Str → Result StoreError Str
as_store_error (ok digest) = ok digest
as_store_error (err e) = err (unreadable [])

-- What the soundness of a store is stated with: the digest of the content that a blob's bytes hold, as
-- a reader finds it to whom every read gives all the bytes.
unfoldable pub codec_hashing : Zstd → Aead → (Str → Str) → BlobCodec → Hashing
codec_hashing zstd aead sha256_hex codec = record {
  sha256_hex = sha256_hex;
  sha256_plaintext_blob = λ blob. as_store_error (
      sha256_plaintext_blob zstd aead sha256_hex codec.cipher
        (ok (record { bytes = blob; grants = [] })));
}
