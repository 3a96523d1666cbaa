-- ===== src/Codec/RoundTrip/Whole.antt =====
-- A whole blob of crates/core/src/encryption/blobs.rs, written and read back.
use mathlib.Core.List.{append-nil}
use backup_sync.Prelude.{
  ℕ, ◌+◌, ◌≤◌, max, ◌≡◌, sym, ap, ◌∙◌, ◌≢◌, Bool, true, false, Option, none, some, [], ◌∷◌, ◌++◌,
  Str, length, length-append, take, take-append-drop, Result, ok, arith,
}
use backup_sync.Prelude.Int.{ℤ}
use backup_sync.Codec.Reader.{CodecError, Reader}
use backup_sync.Codec.Reader.Steady.{IsSteady}
use backup_sync.Codec.Payload.{
  Zstd, Aead, alg_of, build_zstd_payload, decompress_zstd_payload, encrypted_chunk, decrypted_chunk,
  max_decompressed_chunk_bytes,
}
use backup_sync.Codec.Payload.RoundTrip.{
  ZstdLaws, AeadLaws, decompress-build_zstd_payload, decrypted_chunk-encrypted_chunk,
}
use backup_sync.Codec.Encode.{
  enc_magic, comp_magic, enc_version, comp_version, comp_alg_zstd_chunked, sat_add,
  compress_file_to_writer_zstd_chunked, encrypt_file_to_writer_enc_stream,
}
use backup_sync.Codec.Decode.{
  rounds, copy_plain_stream, decompress_stream_to_writer, decrypt_stream_to_writer,
}
use backup_sync.Codec.Blob.{
  BlobCipher, BlobCodec, copy_plain_file_to_writer, written_by, write_blob_from_file_to_writer,
  copy_blob_plaintext_to_writer,
}
use backup_sync.Codec.RoundTrip.Chunks.{IsBody, write_stream-IsWritten}
use backup_sync.Codec.RoundTrip.Plain.{
  copy_plain_loop-IsCopied, copy_plain_loop_steady, sat_add_assoc, IsCopied,
}
use backup_sync.Codec.RoundTrip.Headers.{
  probe_first, probe_encrypted, probe_compressed, probed_plain, read_encrypted_header_back,
  read_compressed_header_back,
}

abbrev pub CipherWithin : Option BlobCipher → Type 0
CipherWithin none = Unit
CipherWithin (some cipher) = cipher.chunk_bytes ≤ max_decompressed_chunk_bytes

-- The largest chunk sizes that `config::validate` lets through.
unfoldable pub IsWithinLimits : BlobCodec → Type 0
IsWithinLimits codec =
    CipherWithin codec.cipher × (codec.write_compression_chunk_bytes ≤ max_decompressed_chunk_bytes)

abbrev pub UnlikeMagic : Option BlobCipher → Bool → Str → Type 0
UnlikeMagic none false bytes = (take 8 bytes ≢ enc_magic) × (take 8 bytes ≢ comp_magic)
UnlikeMagic none true bytes = Unit
UnlikeMagic (some cipher) enabled bytes = Unit

-- A file that is stored plain does not start as an encoded blob does.
unfoldable pub IsUnambiguous : BlobCodec → Str → Type 0
IsUnambiguous codec bytes = UnlikeMagic codec.cipher codec.write_compression_enabled bytes

pub chunk_size :
    (n : ℕ)
    → n ≤ max_decompressed_chunk_bytes
    → (1 ≤ max n 1) × (max n 1 ≤ max_decompressed_chunk_bytes)
chunk_size n h = omega arith

module _ (zstd : Zstd) (aead : Aead) where
  encrypted_read :
      (cipher : BlobCipher) (level : Option ℤ) (nonce body plaintext : Str) (n : ℕ) (r : Reader)
      → length nonce ≡ 19
      → IsBody (decrypted_chunk zstd aead cipher.key nonce (alg_of level)) 0 0 body plaintext n
      → r.bytes ≡ enc_magic ++ (enc_version ∷ alg_of level ∷ (nonce ++ body))
      → IsSteady r
      → copy_blob_plaintext_to_writer zstd aead (some cipher) (ok r) [] ≡ ok (plaintext, n)
  unfolding copy_blob_plaintext_to_writer decrypt_stream_to_writer
  encrypted_read cipher level nonce body plaintext n r size reads same s =
      let (r1, p, left, s1) =
        probe_encrypted r (enc_version ∷ alg_of level ∷ (nonce ++ body)) s same in
      let (r2, h, left2, s2) = read_encrypted_header_back r1 level nonce body size s1 left in
      let all : r2.bytes ≡ body ++ [] = left2 ∙ sym (append-nil body) in
      let room : length body ≤ rounds r2 = omega (arith, ap length left2) in
      rw p (rw h (reads r2 [] [] (rounds r2) s2 all room))

  compressed_read :
      (cipher : Option BlobCipher) (body plaintext : Str) (n : ℕ) (r : Reader)
      → IsBody (λ position last ct. decompress_zstd_payload zstd ct) 0 0 body plaintext n
      → r.bytes ≡ comp_magic ++ (comp_version ∷ comp_alg_zstd_chunked ∷ body)
      → IsSteady r
      → copy_blob_plaintext_to_writer zstd aead cipher (ok r) [] ≡ ok (plaintext, n)
  unfolding copy_blob_plaintext_to_writer decompress_stream_to_writer
  compressed_read cipher body plaintext n r reads same s =
      let (r1, p, left, s1) =
        probe_compressed r (comp_version ∷ comp_alg_zstd_chunked ∷ body) s same in
      let (r2, h, left2, s2) = read_compressed_header_back r1 body s1 left in
      let all : r2.bytes ≡ body ++ [] = left2 ∙ sym (append-nil body) in
      let room : length body ≤ rounds r2 = omega (arith, ap length left2) in
      rw p (rw h (reads r2 [] [] (rounds r2) s2 all room))

  plain_read :
      (cipher : Option BlobCipher) (r : Reader)
      → take 8 r.bytes ≢ enc_magic
      → take 8 r.bytes ≢ comp_magic
      → IsSteady r
      → copy_blob_plaintext_to_writer zstd aead cipher (ok r) []
        ≡ ok (r.bytes, sat_add 0 (length r.bytes))
  unfolding copy_blob_plaintext_to_writer copy_plain_stream
  plain_read cipher r enc comp s =
      let (r1, p, left, s1) = probe_first r s in
      let copy = copy_plain_loop_steady (rounds r1) (take 8 r.bytes) r1 (omega arith) s1 in
      let whole : take 8 r.bytes ++ r1.bytes ≡ r.bytes =
        ap (λ t. take 8 r.bytes ++ t) left ∙ take-append-drop 8 r.bytes in
      let count : length r1.bytes + length (take 8 r.bytes) ≡ length r.bytes =
        omega (arith, ap length whole, length-append (take 8 r.bytes) r1.bytes) in
      let done : Str → ℕ → Result CodecError (Str × ℕ) = λ t n. ok (t, n) in
      rw p (
        rw (probed_plain (take 8 r.bytes) enc comp) (
          rw copy (
            ap (λ t. done t (sat_add (sat_add 0 (length r1.bytes)) (length (take 8 r.bytes)))) whole
            ∙ ap (done r.bytes) (
                sat_add_assoc 0 (length r1.bytes) (length (take 8 r.bytes))
                ∙ ap (sat_add 0) count))))

module _ (zstd : Zstd) (zstd_laws : ZstdLaws zstd) (aead : Aead) (aead_laws : AeadLaws aead) where
  encrypted_back :
      (cipher : BlobCipher) (level : Option ℤ) (nonce : Str) (source : Reader) (blob : Str) (n : ℕ)
      (r : Reader)
      → length nonce ≡ 19
      → cipher.chunk_bytes ≤ max_decompressed_chunk_bytes
      → encrypt_file_to_writer_enc_stream zstd aead nonce
          (ok source)
          []
          cipher.chunk_bytes
          cipher.key
          level
        ≡ ok (blob, n)
      → r.bytes ≡ blob
      → IsSteady r
      → copy_blob_plaintext_to_writer zstd aead (some cipher) (ok r) [] ≡ ok (source.bytes, n)
  unfolding encrypt_file_to_writer_enc_stream
  encrypted_back cipher level nonce source blob n r size small e same s =
      let (some_bytes, within) = chunk_size cipher.chunk_bytes small in
      let (body, grown, reads) =
        write_stream-IsWritten (encrypted_chunk zstd aead cipher.key nonce level)
          (decrypted_chunk zstd aead cipher.key nonce (alg_of level)) max_decompressed_chunk_bytes
          (max cipher.chunk_bytes 1)
          (decrypted_chunk-encrypted_chunk zstd zstd_laws aead aead_laws cipher.key nonce level)
          some_bytes within ((enc_magic ++ (enc_version ∷ alg_of level ∷ [])) ++ nonce) source blob
          n e in
      encrypted_read zstd aead cipher level nonce body source.bytes n r size reads (same ∙ grown) s

  compressed_back :
      (cipher : Option BlobCipher) (chunk_bytes : ℕ) (level : ℤ) (source : Reader) (blob : Str)
      (n : ℕ) (r : Reader)
      → chunk_bytes ≤ max_decompressed_chunk_bytes
      → compress_file_to_writer_zstd_chunked zstd (ok source) [] chunk_bytes level ≡ ok (blob, n)
      → r.bytes ≡ blob
      → IsSteady r
      → copy_blob_plaintext_to_writer zstd aead cipher (ok r) [] ≡ ok (source.bytes, n)
  unfolding compress_file_to_writer_zstd_chunked
  compressed_back cipher chunk_bytes level source blob n r small e same s =
      let (some_bytes, within) = chunk_size chunk_bytes small in
      let (body, grown, reads) =
        write_stream-IsWritten (λ position last pt. build_zstd_payload zstd pt level)
          (λ position last ct. decompress_zstd_payload zstd ct) max_decompressed_chunk_bytes
          (max chunk_bytes 1)
          (λ position last pt ct h x. decompress-build_zstd_payload zstd zstd_laws pt level ct h x)
          some_bytes within (comp_magic ++ (comp_version ∷ comp_alg_zstd_chunked ∷ [])) source blob
          n e in
      compressed_read zstd aead cipher body source.bytes n r reads (same ∙ grown) s

  plain_back :
      (cipher : Option BlobCipher) (source : Reader) (blob : Str) (n : ℕ) (r : Reader)
      → take 8 source.bytes ≢ enc_magic
      → take 8 source.bytes ≢ comp_magic
      → copy_plain_file_to_writer (ok source) [] ≡ ok (blob, n)
      → r.bytes ≡ blob
      → IsSteady r
      → copy_blob_plaintext_to_writer zstd aead cipher (ok r) [] ≡ ok (source.bytes, n)
  unfolding copy_plain_file_to_writer copy_plain_stream IsCopied
  plain_back cipher source blob n r enc comp e same s =
      let (all, count) =
        copy_plain_loop-IsCopied (rounds source) [] 0 source blob n (omega arith) e in
      let text : r.bytes ≡ source.bytes = same ∙ all in
      let done : Str → Result CodecError (Str × ℕ) = λ t. ok (t, sat_add 0 (length t)) in
      let first : (m : Str) → take 8 source.bytes ≢ m → take 8 r.bytes ≢ m =
        λ m h k. h (ap (take 8) (sym text) ∙ k) in
      rw count (
        plain_read zstd aead cipher r (first enc_magic enc) (first comp_magic comp) s
        ∙ ap done text)

  -- By the cipher and the switch for compression.
  back_by :
      (codec : BlobCodec) (nonce : Str) (cipher : Option BlobCipher) (enabled : Bool)
      (source r : Reader) (blob : Str) (n : ℕ)
      → length nonce ≡ 19
      → CipherWithin cipher
      → codec.write_compression_chunk_bytes ≤ max_decompressed_chunk_bytes
      → UnlikeMagic cipher enabled source.bytes
      → written_by zstd aead codec nonce cipher enabled (ok source) [] ≡ ok (blob, n)
      → r.bytes ≡ blob
      → IsSteady r
      → copy_blob_plaintext_to_writer zstd aead cipher (ok r) [] ≡ ok (source.bytes, n)
  back_by codec nonce (some cipher) true source r blob n size w1 w2 u e same s =
      encrypted_back cipher (some codec.write_compression_zstd_level) nonce source blob n r size w1
        e same s
  back_by codec nonce (some cipher) false source r blob n size w1 w2 u e same s =
      encrypted_back cipher none nonce source blob n r size w1 e same s
  back_by codec nonce none true source r blob n size w1 w2 u e same s =
      compressed_back none codec.write_compression_chunk_bytes codec.write_compression_zstd_level
        source blob n r w2 e same s
  back_by codec nonce none false source r blob n size w1 w2 (enc, comp) e same s =
      plain_back none source blob n r enc comp e same s

  -- A file that was written as a blob, with a nonce of 19 bytes, reads back as it was, with the
  -- count that writing gave, under every combination of encryption and compression within the chunk
  -- limits, and however the reads of the two files are split, if the blob's reads do not fail, what
  -- is compressed decompresses and what is sealed opens to itself, and a file that is stored plain
  -- does not start with a magic.
  pub copy_blob_plaintext_to_writer-write_blob_from_file_to_writer :
      (codec : BlobCodec) (nonce : Str) (source r : Reader) (blob : Str) (n : ℕ)
      → length nonce ≡ 19
      → IsWithinLimits codec
      → IsUnambiguous codec source.bytes
      → write_blob_from_file_to_writer zstd aead codec nonce (ok source) [] ≡ ok (blob, n)
      → r.bytes ≡ blob
      → IsSteady r
      → copy_blob_plaintext_to_writer zstd aead codec.cipher (ok r) [] ≡ ok (source.bytes, n)
  unfolding write_blob_from_file_to_writer IsWithinLimits IsUnambiguous
  copy_blob_plaintext_to_writer-write_blob_from_file_to_writer codec nonce source r blob n size
        (w1, w2) u e same s =
      back_by codec nonce codec.cipher codec.write_compression_enabled source r blob n size w1 w2 u
        e same s
