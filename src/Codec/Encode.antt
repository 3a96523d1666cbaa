-- ===== src/Codec/Encode.antt =====
-- The writing side of crates/core/src/encryption/blobs.rs: the encoded stream of a file's bytes.
use backup_sync.Prelude.{
  ℕ, zero, suc, ◌+◌, min, max, Bool, true, false, Option, [], ◌∷◌, ◌++◌, Str, codes, length, Result,
  ok, err, ◌>>=◌,
}
use backup_sync.Prelude.Int.{ℤ}
use backup_sync.Codec.Reader.{CodecError, out_of_fuel, Reader, read_chunk}
use backup_sync.Codec.Frame.{write_framed_chunk}
use backup_sync.Codec.Payload.{Zstd, Aead, alg_of, build_zstd_payload, encrypted_chunk}

-- `ENC_MAGIC`
abbrev pub enc_magic : Str
enc_magic = codes "BSYNCENC"

-- `COMP_MAGIC`
abbrev pub comp_magic : Str
comp_magic = codes "BSYNCCMP"

-- `ENC_VERSION`, `COMP_VERSION` and `COMP_ALG_ZSTD_CHUNKED`.
abbrev pub enc_version : ℕ
enc_version = 1

abbrev pub comp_version : ℕ
comp_version = 1

abbrev pub comp_alg_zstd_chunked : ℕ
comp_alg_zstd_chunked = 1

-- `saturating_add` on `u64`.
unfoldable pub sat_add : ℕ → ℕ → ℕ
sat_add a b = min (a + b) 0xFFFF_FFFF_FFFF_FFFF

-- `b_len == 0`
abbrev pub is_end : Str → Bool
is_end [] = true
is_end (_ ∷ _) = false

-- `if is_last { break; }`
abbrev pub unless_end {ℓ} : {A : Type ℓ} → Str → A → (Str → A) → A
unless_end [] done more = done
unless_end (b ∷ bs) done more = more (b ∷ bs)

module _ (encode : ℕ → Bool → Str → Result CodecError Str) (chunk_bytes : ℕ) where
  -- The chunk `pt`, encoded and framed.
  unfoldable pub add_chunk : ℕ → Bool → Str → Str → Result CodecError Str
  unfolding write_framed_chunk
  add_chunk position last pt out = do ct ← encode position last pt; write_framed_chunk out ct last

  -- The loop that encodes the chunk in one buffer once it knows, by the other, whether it is the
  -- last; `position` is the number of chunks before it.
  unfoldable pub write_chunks : ℕ → Str → ℕ → Str → ℕ → Reader → Result CodecError (Str × ℕ)
  unfolding sat_add read_chunk add_chunk
  write_chunks zero a position out total r = err out_of_fuel
  write_chunks (suc fuel) a position out total r = do
    (b, r1) ← read_chunk chunk_bytes r
    out1 ← add_chunk position (is_end b) a out
    unless_end b (ok (out1, sat_add total (length a)))
        λ next. write_chunks fuel next (suc position) out1 (sat_add total (length a)) r1

  -- `if a_len == 0 { ... return Ok(0); } loop { ... }`: each round takes the next chunk of the file.
  unfoldable pub write_stream : Str → Reader → Result CodecError (Str × ℕ)
  unfolding write_chunks add_chunk read_chunk
  write_stream out r = do
    (a, r1) ← read_chunk chunk_bytes r
    unless_end a (do out1 ← add_chunk 0 true [] out; ok (out1, 0))
        (λ first. write_chunks (suc (length r.bytes)) first 0 out 0 r1)

module _ (zstd : Zstd) where
  -- `src` is the outcome of opening the file.
  unfoldable pub compress_file_to_writer_zstd_chunked :
      Result CodecError Reader → Str → ℕ → ℤ → Result CodecError (Str × ℕ)
  unfolding write_stream
  compress_file_to_writer_zstd_chunked src out chunk_bytes level = do
    r ← src
    write_stream (λ position last pt. build_zstd_payload zstd pt level) (max chunk_bytes 1)
        ((out ++ comp_magic) ++ (comp_version ∷ comp_alg_zstd_chunked ∷ [])) r

  unfoldable pub encrypt_file_to_writer_enc_stream :
      Aead → Str → Result CodecError Reader → Str → ℕ → Str → Option ℤ → Result CodecError (Str × ℕ)
  unfolding write_stream
  encrypt_file_to_writer_enc_stream aead nonce src out chunk_bytes key level = do
    r ← src
    write_stream (encrypted_chunk zstd aead key nonce level) (max chunk_bytes 1)
        (((out ++ enc_magic) ++ (enc_version ∷ alg_of level ∷ [])) ++ nonce) r
