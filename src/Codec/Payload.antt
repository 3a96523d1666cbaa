-- ===== src/Codec/Payload.antt =====
-- The contents of one chunk of an encoded blob in crates/core/src/encryption/blobs.rs:
-- `build_zstd_payload`, `decompress_zstd_payload`, and the cipher around them.
pub mod RoundTrip
pub mod Size
use backup_sync.Prelude.{
  ℕ, ◌*◌, ◌%◌, ◌^◌, Bool, true, false, Option, none, some, List, [], ◌∷◌, ◌++◌, ltb, ◌==◌,
  if◌then◌else◌, Str, length, take, drop, Result, ok, err, ◌>>=◌,
}
use backup_sync.Prelude.Int.{ℤ}
use backup_sync.Codec.Reader.{CodecError, too_large, zstd_failed, cipher_failed, payload_too_short}
use backup_sync.Codec.Frame.{to_be_bytes, from_be_bytes}

-- `zstd::bulk`: compression at a level, and decompression into at most so many bytes.
pub record Zstd : Type 0 where
  pub compress : ℤ → Str → Option Str
  pub decompress : Str → ℕ → Option Str

-- The STREAM construction of `chacha20poly1305::aead::stream`: by the key, the nonce, the position of
-- the chunk in the stream and whether it is the last.
pub record Aead : Type 0 where
  pub seal : Str → Str → ℕ → Bool → Str → Option Str
  pub unseal : Str → Str → ℕ → Bool → Str → Option Str

abbrev pub or_failed : CodecError → Option Str → Result CodecError Str
or_failed e none = err e
or_failed e (some s) = ok s

-- `MAX_DECOMPRESSED_CHUNK_BYTES`, 8 MiB.
abbrev pub max_decompressed_chunk_bytes : ℕ
max_decompressed_chunk_bytes = 8388608

abbrev pub alg_encrypted : ℕ
alg_encrypted = 1

abbrev pub alg_encrypted_zstd : ℕ
alg_encrypted_zstd = 2

-- The algorithm byte that `encrypt_file_to_writer` and `encrypt_file_to_writer_zstd_chunked` give.
abbrev pub alg_of : Option ℤ → ℕ
alg_of none = alg_encrypted
alg_of (some level) = alg_encrypted_zstd

module _ (zstd : Zstd) where
  -- `if !pt.is_empty() { ... }`
  abbrev pub compressed_text : ℤ → Str → Option Str
  compressed_text level [] = some []
  compressed_text level (b ∷ bs) = zstd.compress level (b ∷ bs)

  unfoldable pub build_zstd_payload : Str → ℤ → Result CodecError Str
  build_zstd_payload pt level = if ltb 0xFFFF_FFFF (length pt) then err too_large else do
    ct ← or_failed zstd_failed (compressed_text level pt)
    ok (to_be_bytes (length pt % 2 ^ 32) ++ ct)

  -- What follows the length, of which the plaintext has `pt_len`.
  abbrev pub unpacked : ℕ → Str → Result CodecError Str
  unpacked pt_len [] =
      if pt_len == 0 then ok [] else or_failed zstd_failed (zstd.decompress [] pt_len)
  unpacked pt_len (b ∷ bs) =
      if pt_len == 0
      then or_failed zstd_failed (zstd.decompress (b ∷ bs) 0)
      else or_failed zstd_failed (zstd.decompress (b ∷ bs) pt_len)

  unfoldable pub decompress_zstd_payload : Str → Result CodecError Str
  decompress_zstd_payload payload =
      let pt_len = from_be_bytes (take 4 payload) in
      if ltb (length payload) 4
      then err payload_too_short
      else if ltb max_decompressed_chunk_bytes pt_len
      then err too_large
      else unpacked pt_len (drop 4 payload)

  module _ (aead : Aead) where
    -- One chunk of `encrypt_file_to_writer_enc_stream`.
    unfoldable pub encrypted_chunk : Str → Str → Option ℤ → ℕ → Bool → Str → Result CodecError Str
    unfolding build_zstd_payload
    encrypted_chunk key nonce none position last pt =
        or_failed cipher_failed (aead.seal key nonce position last pt)
    encrypted_chunk key nonce (some level) position last pt = do
      payload ← build_zstd_payload pt level
      or_failed cipher_failed (aead.seal key nonce position last payload)

    -- One chunk of `decrypt_stream_to_writer` and `decrypt_stream_to_hasher`.
    unfoldable pub decrypted_chunk : Str → Str → ℕ → ℕ → Bool → Str → Result CodecError Str
    unfolding decompress_zstd_payload
    decrypted_chunk key nonce alg position last ct = do
      decoded ← or_failed cipher_failed (aead.unseal key nonce position last ct)
      if alg == alg_encrypted_zstd then decompress_zstd_payload decoded else ok decoded
