-- ===== src/Codec/Payload/Size.antt =====
-- The sizes of encoded chunks in crates/core/src/encryption/blobs.rs.
use backup_sync.Prelude.{
  ℕ, ◌+◌, ◌-◌, ◌/◌, ◌%◌, ◌^◌, ◌≤◌, ◌<◌, ◌≡◌, refl, Bool, false, Option, none, some, [], ◌∷◌, ◌++◌,
  ltb, Str, length, ok, arith,
}
use backup_sync.Prelude.Int.{ℤ}
use backup_sync.Codec.Frame.{to_be_bytes}
use backup_sync.Codec.Payload.{
  Zstd, Aead, compressed_text, build_zstd_payload, encrypted_chunk, max_decompressed_chunk_bytes,
}

-- Compression of a chunk within the limit gives a result within `ZSTD_compressBound`.
pub record ZstdRuns (zstd : Zstd) : Type 0 where
  pub compress_runs :
      (level : ℤ) (pt : Str)
      → length pt ≤ max_decompressed_chunk_bytes
      → (ct : Str) × (zstd.compress level pt ≡ some ct)
        × (length ct ≤ length pt + length pt / 256 + 64)

-- The cipher adds a tag of 16 bytes; a stream has less than 2^32 chunks.
pub record AeadRuns (aead : Aead) : Type 0 where
  pub seal_runs :
      (key nonce : Str) (position : ℕ) (last : Bool) (pt : Str)
      → position < 2 ^ 32 - 1
      → length pt < 2 ^ 30
      → (ct : Str) × (aead.seal key nonce position last pt ≡ some ct) × (length ct ≡ length pt + 16)

module _ (zstd : Zstd) (zstd_runs : ZstdRuns zstd) where
  compressed_runs :
      (level : ℤ) (pt : Str)
      → length pt ≤ max_decompressed_chunk_bytes
      → (ct : Str) × (compressed_text zstd level pt ≡ some ct)
        × (length ct ≤ length pt + length pt / 256 + 64)
  compressed_runs level [] h = ([], refl, omega arith)
  compressed_runs level (b ∷ bs) h = zstd_runs.compress_runs level (b ∷ bs) h

  pub build_zstd_payload_runs :
      (pt : Str) (level : ℤ)
      → length pt ≤ max_decompressed_chunk_bytes
      → (payload : Str) × (build_zstd_payload zstd pt level ≡ ok payload)
        × (length payload < 2 ^ 24)
  unfolding build_zstd_payload to_be_bytes
  build_zstd_payload_runs pt level h =
      let (ct, c, size) = compressed_runs level pt h in
      let small : ltb 0xFFFF_FFFF (length pt) ≡ false = ground arith in
      (to_be_bytes (length pt % 2 ^ 32) ++ ct, rw small (rw c refl), omega (arith, size, h))

  module _ (aead : Aead) (aead_runs : AeadRuns aead) where
    pub encrypted_chunk_runs :
        (key nonce : Str) (level : Option ℤ) (position : ℕ) (last : Bool) (pt : Str)
        → position < 2 ^ 32 - 1
        → length pt ≤ max_decompressed_chunk_bytes
        → (ct : Str) × (encrypted_chunk zstd aead key nonce level position last pt ≡ ok ct)
          × (length ct < 2 ^ 31)
    unfolding encrypted_chunk
    encrypted_chunk_runs key nonce none position last pt p h =
        let (ct, c, size) = aead_runs.seal_runs key nonce position last pt p (omega (arith, h)) in
        (ct, rw c refl, omega (arith, size, h))
    encrypted_chunk_runs key nonce (some level) position last pt p h =
        let (payload, b, small) = build_zstd_payload_runs pt level h in
        let (ct, c, size) =
          aead_runs.seal_runs key nonce position last payload p (omega (arith, small)) in
        (ct, rw b (rw c refl), omega (arith, size, small))
