-- ===== src/Codec/RoundTrip/Available.antt =====
-- A whole blob of crates/core/src/encryption/blobs.rs, written from a file whose reads do not fail.
use backup_sync.Prelude.{
  ℕ, ◌-◌, ◌^◌, ◌≤◌, ◌<◌, max, ◌≡◌, Bool, true, false, Option, none, some, [], ◌∷◌, ◌++◌, Str,
  length, ok, arith,
}
use backup_sync.Prelude.Int.{ℤ}
use backup_sync.Codec.Reader.{Reader}
use backup_sync.Codec.Reader.Steady.{IsSteady}
use backup_sync.Codec.Payload.{
  Zstd, Aead, alg_of, build_zstd_payload, encrypted_chunk, max_decompressed_chunk_bytes,
}
use backup_sync.Codec.Payload.Size.{
  ZstdRuns, AeadRuns, build_zstd_payload_runs, encrypted_chunk_runs,
}
use backup_sync.Codec.Payload.RoundTrip.{ZstdLaws, AeadLaws}
use backup_sync.Codec.Encode.{
  enc_magic, comp_magic, enc_version, comp_version, comp_alg_zstd_chunked,
  compress_file_to_writer_zstd_chunked, encrypt_file_to_writer_enc_stream,
}
use backup_sync.Codec.Decode.{rounds, copy_plain_stream}
use backup_sync.Codec.Blob.{
  BlobCipher, BlobCodec, copy_plain_file_to_writer, written_by, write_blob_from_file_to_writer,
  copy_blob_plaintext_to_writer,
}
use backup_sync.Codec.RoundTrip.Plain.{copy_plain_loop_steady}
use backup_sync.Codec.RoundTrip.Total.{write_stream_runs}
use backup_sync.Codec.RoundTrip.Whole.{
  chunk_size, CipherWithin, IsWithinLimits, IsUnambiguous,
  copy_blob_plaintext_to_writer-write_blob_from_file_to_writer,
}

module _ (zstd : Zstd) (zstd_runs : ZstdRuns zstd) (aead : Aead) (aead_runs : AeadRuns aead) where
  encrypt_runs :
      (nonce : Str) (source : Reader) (chunk_bytes : ℕ) (key : Str) (level : Option ℤ)
      → chunk_bytes ≤ max_decompressed_chunk_bytes
      → length source.bytes < 2 ^ 32 - 1
      → IsSteady source
      → (y : Str × ℕ) × (encrypt_file_to_writer_enc_stream zstd aead nonce
            (ok source)
            []
            chunk_bytes
            key
            level
          ≡ ok y)
  unfolding encrypt_file_to_writer_enc_stream
  encrypt_runs nonce source chunk_bytes key level small size s =
      let (some_bytes, within) = chunk_size chunk_bytes small in
      write_stream_runs (encrypted_chunk zstd aead key nonce level) (max chunk_bytes 1)
        (length source.bytes) some_bytes
        (λ position last pt p h.
          encrypted_chunk_runs zstd zstd_runs aead aead_runs key nonce level position last pt
            (omega (arith, size, p)) (omega (arith, h, within)))
        ((enc_magic ++ (enc_version ∷ alg_of level ∷ [])) ++ nonce) source (omega arith) s

  compress_runs :
      (source : Reader) (chunk_bytes : ℕ) (level : ℤ)
      → chunk_bytes ≤ max_decompressed_chunk_bytes
      → IsSteady source
      → (y : Str × ℕ) × (compress_file_to_writer_zstd_chunked zstd (ok source) [] chunk_bytes level
          ≡ ok y)
  unfolding compress_file_to_writer_zstd_chunked
  compress_runs source chunk_bytes level small s =
      let (some_bytes, within) = chunk_size chunk_bytes small in
      write_stream_runs (λ position last pt. build_zstd_payload zstd pt level) (max chunk_bytes 1)
        (length source.bytes) some_bytes
        (λ position last pt p h.
          let (payload, b, low) =
            build_zstd_payload_runs zstd zstd_runs pt level (omega (arith, h, within)) in
          (payload, b, omega (arith, low)))
        (comp_magic ++ (comp_version ∷ comp_alg_zstd_chunked ∷ [])) source (omega arith) s

  runs_by :
      (codec : BlobCodec) (nonce : Str) (cipher : Option BlobCipher) (enabled : Bool)
      (source : Reader)
      → CipherWithin cipher
      → codec.write_compression_chunk_bytes ≤ max_decompressed_chunk_bytes
      → length source.bytes < 2 ^ 32 - 1
      → IsSteady source
      → (y : Str × ℕ) × (written_by zstd aead codec nonce cipher enabled (ok source) [] ≡ ok y)
  unfolding copy_plain_file_to_writer copy_plain_stream
  runs_by codec nonce (some cipher) true source w1 w2 size s =
      encrypt_runs nonce source cipher.chunk_bytes cipher.key
        (some codec.write_compression_zstd_level) w1 size s
  runs_by codec nonce (some cipher) false source w1 w2 size s =
      encrypt_runs nonce source cipher.chunk_bytes cipher.key none w1 size s
  runs_by codec nonce none true source w1 w2 size s =
      compress_runs source codec.write_compression_chunk_bytes codec.write_compression_zstd_level w2
        s
  runs_by codec nonce none false source w1 w2 size s =
      ((source.bytes, _), copy_plain_loop_steady (rounds source) [] source (omega arith) s)

  -- A file whose reads do not fail is stored and read back as it was: writing its blob succeeds,
  -- and every reading of that blob whose reads do not fail gives the file's bytes. The nonce has 19
  -- bytes, the chunk sizes are within the configured limits, the file has less than 2^32 - 1 bytes,
  -- zstd and the cipher succeed within these bounds and are undone by their inverses, and a file
  -- that is stored plain does not start with a magic.
  pub blob_available :
      (zstd_laws : ZstdLaws zstd) (aead_laws : AeadLaws aead) (codec : BlobCodec) (nonce : Str)
      (source : Reader)
      → length nonce ≡ 19
      → IsWithinLimits codec
      → IsUnambiguous codec source.bytes
      → length source.bytes < 2 ^ 32 - 1
      → IsSteady source
      → (blob : Str) × (n : ℕ) × (write_blob_from_file_to_writer zstd aead codec nonce
            (ok source)
            []
          ≡ ok (blob, n))
        × ((r : Reader)
            → r.bytes ≡ blob
            → IsSteady r
            → copy_blob_plaintext_to_writer zstd aead codec.cipher (ok r) [] ≡ ok (source.bytes, n))
  unfolding write_blob_from_file_to_writer IsWithinLimits
  blob_available zstd_laws aead_laws codec nonce source sized (w1, w2) u size s =
      let ((blob, n), e) =
        runs_by codec nonce codec.cipher codec.write_compression_enabled source w1 w2 size s in
      (
        blob,
        n,
        e,
        λ r same steady.
            copy_blob_plaintext_to_writer-write_blob_from_file_to_writer zstd zstd_laws aead
              aead_laws codec nonce source r blob n sized (w1, w2) u e same steady,
      )
