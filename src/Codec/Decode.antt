-- ===== src/Codec/Decode.antt =====
-- The reading side of crates/core/src/encryption/blobs.rs: the plaintext of an encoded stream, into a
-- file or into a hash.
use backup_sync.Prelude.{
  ℕ, zero, suc, Bool, true, false, [], ◌∷◌, ◌++◌, ◌==◌, not, ◌&&◌, if◌then◌else◌, Str, str_eq,
  length, Result, ok, err, ◌>>=◌, bail_if, ◌>>◌,
}
use backup_sync.Codec.Reader.{
  CodecError, out_of_fuel, unsupported_version, unsupported_algorithm, Reader, read_chunk,
  read_exact, probe_loop,
}
use backup_sync.Codec.Frame.{read_framed_chunk}
use backup_sync.Codec.Payload.{
  Zstd, Aead, alg_encrypted, alg_encrypted_zstd, decompress_zstd_payload, decrypted_chunk,
}
use backup_sync.Codec.Encode.{
  enc_magic, comp_magic, enc_version, comp_version, comp_alg_zstd_chunked, sat_add, unless_end,
}

pub data ProbedMagic : Type 0 where
  encrypted compressed plain : ProbedMagic

pub record EncHeader : Type 0 where
  pub alg : ℕ
  pub nonce : Str

-- What `probe_magic_prefix` makes of the first bytes, of which there are at most eight.
unfoldable pub probed : Str → ProbedMagic × Str
probed magic =
    if length magic == 8
    then if str_eq magic enc_magic
      then (encrypted, [])
      else if str_eq magic comp_magic
      then (compressed, [])
      else (plain, magic)
    else (plain, magic)

unfoldable pub probe_magic_prefix : Reader → Result CodecError ((ProbedMagic × Str) × Reader)
unfolding probed probe_loop
probe_magic_prefix r = do (magic, after) ← probe_loop 8 8 r; ok (probed magic, after)

-- `meta[0]` and `meta[1]` of the two bytes after the magic.
abbrev pub first_byte : Str → ℕ
first_byte [] = 0
first_byte (b ∷ _) = b

abbrev pub second_byte : Str → ℕ
second_byte (_ ∷ b ∷ _) = b
second_byte _ = 0

unfoldable pub read_encrypted_header : Reader → Result CodecError (EncHeader × Reader)
unfolding read_exact
read_encrypted_header r = do
  (meta, r1) ← read_exact 2 r
  bail_if (not (first_byte meta == enc_version)) unsupported_version
  bail_if (not (second_byte meta == alg_encrypted) && not (second_byte meta == alg_encrypted_zstd))
      unsupported_algorithm
  (nonce, r2) ← read_exact 19 r1
  ok (record { alg = second_byte meta; nonce = nonce }, r2)

unfoldable pub read_compressed_header : Reader → Result CodecError (ℕ × Reader)
unfolding read_exact
read_compressed_header r = do
  (meta, r1) ← read_exact 2 r
  bail_if (not (first_byte meta == comp_version)) unsupported_version
  bail_if (not (second_byte meta == comp_alg_zstd_chunked)) unsupported_algorithm
  ok (second_byte meta, r1)

-- `if is_last { break; }`
abbrev pub unless_last {ℓ} : {A : Type ℓ} → Bool → A → (Unit {0} → A) → A
unless_last true done more = done
unless_last false done more = more tt

module _ (decode : ℕ → Bool → Str → Result CodecError Str) where
  -- The loop of the functions that write: the output so far and the count of its bytes.
  unfoldable pub copy_chunks : ℕ → ℕ → Str → ℕ → Reader → Result CodecError (Str × ℕ)
  unfolding sat_add read_framed_chunk
  copy_chunks zero position out total r = err out_of_fuel
  copy_chunks (suc fuel) position out total r = do
    ((ct, is_last), r1) ← read_framed_chunk r
    pt ← decode position is_last ct
    unless_last is_last (ok (out ++ pt, sat_add total (length pt)))
        λ _. copy_chunks fuel (suc position) (out ++ pt) (sat_add total (length pt)) r1

  -- The loop of the functions that hash: the bytes hashed so far.
  unfoldable pub hash_chunks : ℕ → ℕ → Str → Reader → Result CodecError Str
  unfolding read_framed_chunk
  hash_chunks zero position hasher r = err out_of_fuel
  hash_chunks (suc fuel) position hasher r = do
    ((ct, is_last), r1) ← read_framed_chunk r
    pt ← decode position is_last ct
    unless_last is_last (ok (hasher ++ pt)) λ _. hash_chunks fuel (suc position) (hasher ++ pt) r1

-- Each round of a loop over a file takes some of its bytes.
abbrev pub rounds : Reader → ℕ
rounds r = suc (length r.bytes)

-- `vec![0u8; 64 * 1024]`
abbrev pub copy_buffer_bytes : ℕ
copy_buffer_bytes = 65536

unfoldable pub copy_plain_loop : ℕ → Str → ℕ → Reader → Result CodecError (Str × ℕ)
unfolding sat_add read_chunk
copy_plain_loop zero out total r = err out_of_fuel
copy_plain_loop (suc fuel) out total r = do
  (b, r1) ← read_chunk copy_buffer_bytes r
  unless_end b (ok (out, total))
      λ more. copy_plain_loop fuel (out ++ more) (sat_add total (length more)) r1

unfoldable pub copy_plain_stream : Reader → Str → Result CodecError (Str × ℕ)
unfolding copy_plain_loop
copy_plain_stream r out = copy_plain_loop (rounds r) out 0 r

-- The loop of `sha256_plaintext_blob_impl` over a plain blob.
unfoldable pub hash_plain_loop : ℕ → Str → Reader → Result CodecError Str
unfolding read_chunk
hash_plain_loop zero hasher r = err out_of_fuel
hash_plain_loop (suc fuel) hasher r = do
  (b, r1) ← read_chunk copy_buffer_bytes r
  unless_end b (ok hasher) λ more. hash_plain_loop fuel (hasher ++ more) r1

module _ (zstd : Zstd) where
  unfoldable pub decompress_stream_to_writer : Reader → Str → Result CodecError (Str × ℕ)
  unfolding copy_chunks
  decompress_stream_to_writer r out =
      copy_chunks (λ position last ct. decompress_zstd_payload zstd ct) (rounds r) 0 out 0 r

  unfoldable pub decompress_stream_to_hasher : Reader → Str → Result CodecError Str
  unfolding hash_chunks
  decompress_stream_to_hasher r hasher =
      hash_chunks (λ position last ct. decompress_zstd_payload zstd ct) (rounds r) 0 hasher r

  module _ (aead : Aead) (key : Str) where
    unfoldable pub decrypt_stream_to_writer : Reader → EncHeader → Str → Result CodecError (Str × ℕ)
    unfolding copy_chunks
    decrypt_stream_to_writer r header out =
        copy_chunks (decrypted_chunk zstd aead key header.nonce header.alg) (rounds r) 0 out 0 r

    unfoldable pub decrypt_stream_to_hasher : Reader → EncHeader → Str → Result CodecError Str
    unfolding hash_chunks
    decrypt_stream_to_hasher r header hasher =
        hash_chunks (decrypted_chunk zstd aead key header.nonce header.alg) (rounds r) 0 hasher r
