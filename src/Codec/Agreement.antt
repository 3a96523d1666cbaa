-- ===== src/Codec/Agreement.antt =====
-- `sha256_plaintext_blob` and `copy_blob_plaintext_to_writer` of crates/core/src/encryption/blobs.rs,
-- compared on every blob.
use backup_sync.Prelude.{
  ℕ, zero, suc, ◌≡◌, refl, sym, ap, ◌∙◌, Bool, true, false, Option, none, some, [], ◌∷◌, ◌++◌, Str,
  length, Result, ok, err, ◌>>=◌, bind_cong, bind_assoc,
}
use backup_sync.Codec.Reader.{CodecError, Reader, read_chunk}
use backup_sync.Codec.Frame.{read_framed_chunk}
use backup_sync.Codec.Payload.{Zstd, Aead, decrypted_chunk, decompress_zstd_payload}
use backup_sync.Codec.Encode.{sat_add, unless_end}
use backup_sync.Codec.Decode.{
  ProbedMagic, encrypted, compressed, plain, probe_magic_prefix, read_encrypted_header,
  read_compressed_header, copy_chunks, hash_chunks, unless_last, copy_plain_loop, copy_plain_stream,
  hash_plain_loop, rounds, copy_buffer_bytes, decompress_stream_to_writer,
  decompress_stream_to_hasher, decrypt_stream_to_writer, decrypt_stream_to_hasher,
}
use backup_sync.Codec.Blob.{
  BlobCipher, copied, hashed, copy_blob_plaintext_to_writer, sha256_plaintext_blob,
}

-- What a function that writes wrote, without its count.
abbrev output : Result CodecError (Str × ℕ) → Result CodecError Str
output (ok (out, n)) = ok out
output (err e) = err e

output-bind {ℓ} :
    {A : Type ℓ} (m : Result CodecError A) (f : A → Result CodecError (Str × ℕ))
    → output (m >>= f) ≡ (m >>= (λ a. output (f a)))
output-bind (ok a) f = refl
output-bind (err e) f = refl

output_count :
    (m : Result CodecError (Str × ℕ)) (f : ℕ → ℕ) → output m ≡ output (m >>= λ (x, n). ok (x, f n))
output_count (ok (x, n)) f = refl
output_count (err e) f = refl

output_then :
    (m : Result CodecError (Str × ℕ)) (f : Str → Str)
    → (output m >>= λ x. ok (f x)) ≡ (m >>= λ (x, n). ok (f x))
output_then (ok (x, n)) f = refl
output_then (err e) f = refl

unless_last_agrees :
    (last : Bool) (x : Str) (n : ℕ) (f : Unit {0} → Result CodecError Str)
    (g : Unit {0} → Result CodecError (Str × ℕ))
    → f tt ≡ output (g tt)
    → unless_last last (ok x) f ≡ output (unless_last last (ok (x, n)) g)
unless_last_agrees true x n f g h = refl
unless_last_agrees false x n f g h = h

unless_end_agrees :
    (b x : Str) (n : ℕ) (f : Str → Result CodecError Str) (g : Str → Result CodecError (Str × ℕ))
    → f b ≡ output (g b)
    → unless_end b (ok x) f ≡ output (unless_end b (ok (x, n)) g)
unless_end_agrees [] x n f g h = refl
unless_end_agrees (a ∷ b) x n f g h = h

hash_chunks-copy_chunks :
    (decode : ℕ → Bool → Str → Result CodecError Str) (fuel position : ℕ) (out : Str) (total : ℕ)
    (r : Reader)
    → hash_chunks decode fuel position out r ≡ output (copy_chunks decode fuel position out total r)
unfolding hash_chunks copy_chunks
hash_chunks-copy_chunks decode zero position out total r = refl
hash_chunks-copy_chunks decode (suc fuel) position out total r =
    bind_cong (read_framed_chunk r) _ _ (λ ((ct, last), r1).
      bind_cong (decode position last ct) _ _ (λ pt.
        unless_last_agrees last (out ++ pt) (sat_add total (length pt)) _ _ (
          hash_chunks-copy_chunks decode fuel (suc position) (out ++ pt) (sat_add total (length pt))
            r1))
      ∙ sym (output-bind (decode position last ct) _))
    ∙ sym (output-bind (read_framed_chunk r) _)

hash_plain_loop-copy_plain_loop :
    (fuel : ℕ) (out : Str) (total : ℕ) (r : Reader)
    → hash_plain_loop fuel out r ≡ output (copy_plain_loop fuel out total r)
unfolding hash_plain_loop copy_plain_loop
hash_plain_loop-copy_plain_loop zero out total r = refl
hash_plain_loop-copy_plain_loop (suc fuel) out total r =
    bind_cong (read_chunk copy_buffer_bytes r) _ _ (λ (b, r1).
      unless_end_agrees b out total _ _
        (hash_plain_loop-copy_plain_loop fuel (out ++ b) (sat_add total (length b)) r1))
    ∙ sym (output-bind (read_chunk copy_buffer_bytes r) _)

module _ (zstd : Zstd) (aead : Aead) where
  hashed-copied :
      (cipher : Option BlobCipher) (start : (ProbedMagic × Str) × Reader)
      → hashed zstd aead cipher start ≡ output (copied zstd aead cipher [] start)
  unfolding decrypt_stream_to_hasher decrypt_stream_to_writer decompress_stream_to_hasher
      decompress_stream_to_writer copy_plain_stream
  hashed-copied none ((encrypted, prefix), r) = refl
  hashed-copied (some cipher) ((encrypted, prefix), r) =
      bind_cong (read_encrypted_header r) _ _ (λ (header, r1).
        hash_chunks-copy_chunks (decrypted_chunk zstd aead cipher.key header.nonce header.alg)
          (rounds r1) 0 [] 0 r1)
      ∙ sym (output-bind (read_encrypted_header r) _)
  hashed-copied cipher ((compressed, prefix), r) =
      bind_cong (read_compressed_header r) _ _ (λ (header, r1).
        hash_chunks-copy_chunks (λ position last ct. decompress_zstd_payload zstd ct) (rounds r1) 0
          [] 0 r1)
      ∙ sym (output-bind (read_compressed_header r) _)
  hashed-copied cipher ((plain, prefix), r) =
      hash_plain_loop-copy_plain_loop (rounds r) prefix 0 r
      ∙ output_count (copy_plain_loop (rounds r) prefix 0 r) (λ n. sat_add n (length prefix))

  -- On every blob, readable or not, the hash is that of the bytes that a restore would write, and an
  -- error that stops the one stops the other.
  pub sha256_plaintext_blob-copy_blob_plaintext_to_writer :
      (sha256_hex : Str → Str) (cipher : Option BlobCipher) (blob : Result CodecError Reader)
      → sha256_plaintext_blob zstd aead sha256_hex cipher blob ≡ (do
        (plaintext, n) ← copy_blob_plaintext_to_writer zstd aead cipher blob []
        ok (sha256_hex plaintext))
  unfolding sha256_plaintext_blob copy_blob_plaintext_to_writer
  sha256_plaintext_blob-copy_blob_plaintext_to_writer sha256_hex cipher blob =
      bind_cong blob _ _ (λ r.
        bind_cong (probe_magic_prefix r) _ _ (λ start.
          ap (λ m. m >>= λ plaintext. ok (sha256_hex plaintext)) (hashed-copied cipher start)
          ∙ output_then (copied zstd aead cipher [] start) sha256_hex)
        ∙ sym (bind_assoc (probe_magic_prefix r) _ _))
      ∙ sym (bind_assoc blob _ _)
