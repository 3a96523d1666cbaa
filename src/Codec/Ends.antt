-- ===== src/Codec/Ends.antt =====
-- Termination of the loops that decode a blob in crates/core/src/encryption/blobs.rs.
use backup_sync.Prelude.{
  ℕ, zero, suc, ◌-◌, ◌≤◌, ◌<◌, ap, ◌≢◌, Bool, true, false, not, ◌&&◌, Option, none, some, [], ◌∷◌,
  ◌++◌, ◌==◌, Str, length, length-append, take, drop, Result, ok, err, ◌>>=◌, bail_if, ◌>>◌, arith,
}
use backup_sync.Codec.Reader.{
  CodecError, zstd_failed, cipher_failed, out_of_fuel, unsupported_version, unsupported_algorithm,
  Reader, read_chunk, read_exact, probe_loop, probe_after,
}
use backup_sync.Codec.Reader.Steady.{read_chunk_splits}
use backup_sync.Codec.Reader.Ends.{bind_ends, read_chunk_ends, read_exact_ends, prefixed_ends}
use backup_sync.Codec.Frame.{read_framed_chunk, from_be_bytes}
use backup_sync.Codec.Frame.RoundTrip.{read_framed_chunk_ends, read_framed_chunk_takes}
use backup_sync.Codec.Payload.{
  Zstd, Aead, or_failed, unpacked, decompress_zstd_payload, decrypted_chunk, alg_encrypted,
  alg_encrypted_zstd,
}
use backup_sync.Codec.Encode.{sat_add, unless_end, enc_version, comp_version, comp_alg_zstd_chunked}
use backup_sync.Codec.Decode.{
  ProbedMagic, encrypted, compressed, plain, EncHeader, first_byte, second_byte, probe_magic_prefix,
  read_encrypted_header, read_compressed_header, copy_chunks, unless_last, copy_plain_loop,
  copy_plain_stream, rounds, copy_buffer_bytes, decompress_stream_to_writer,
  decrypt_stream_to_writer,
}
use backup_sync.Codec.Blob.{BlobCipher, copied, copy_blob_plaintext_to_writer}

abbrev Ends {ℓ} : {A : Type ℓ} → Result CodecError A → Type ℓ
Ends m = m ≢ err out_of_fuel

-- The probe: one round for each byte that is missing.
probe_after-Ends :
    (got : Str × Reader) (more : ℕ → Reader → Result CodecError (Str × Reader)) (n : ℕ)
    → ((k : ℕ) → k ≤ n → Ends (more k got.1))
    → Ends (probe_after got (more (suc n - length got.0)))
probe_after-Ends ([], r) more n h e = ground arith
probe_after-Ends (b ∷ bs, r) more n h e =
    prefixed_ends (b ∷ bs) (more (suc n - length (b ∷ bs)) r) (h _ (omega arith)) e

probe_loop-Ends : (fuel n : ℕ) (r : Reader) → n ≤ fuel → Ends (probe_loop fuel n r)
unfolding probe_loop
probe_loop-Ends fuel zero r h = λ e. ground arith
probe_loop-Ends zero (suc n) r h = absurd (omega arith)
probe_loop-Ends (suc fuel) (suc n) r h =
    bind_ends (read_chunk (suc n) r) _ (read_chunk_ends (suc n) r) (λ got c.
      probe_after-Ends got (probe_loop fuel) n (λ k l. probe_loop-Ends fuel k got.1 (omega arith)))

bail-Ends {ℓ} :
    {A : Type ℓ} (b : Bool) (x : CodecError) (k : Result CodecError A)
    → x ≢ out_of_fuel
    → Ends k
    → Ends (bail_if b x >> k)
bail-Ends true x k h g e = h cc
bail-Ends false x k h g e = g e

ok-Ends {ℓ} : {A : Type ℓ} (a : A) → Ends (ok a)
ok-Ends a e = ground arith

read_encrypted_header-Ends : (r : Reader) → Ends (read_encrypted_header r)
unfolding read_encrypted_header
read_encrypted_header-Ends r = bind_ends (read_exact 2 r) _ (read_exact_ends 2 r) (λ (meta, r1) _.
    let finished : Str × Reader → Result CodecError (EncHeader × Reader) =
      λ (nonce, r2). ok (record { alg = second_byte meta; nonce = nonce }, r2) in
    bail-Ends (not (first_byte meta == enc_version)) unsupported_version
      (bail_if
          (not (second_byte meta == alg_encrypted) && not (second_byte meta == alg_encrypted_zstd))
          unsupported_algorithm
        >> (read_exact 19 r1 >>= finished))
      (λ e. cc)
      (bail-Ends
        (not (second_byte meta == alg_encrypted) && not (second_byte meta == alg_encrypted_zstd))
        unsupported_algorithm (read_exact 19 r1 >>= finished) (λ e. cc)
        (bind_ends (read_exact 19 r1) finished (read_exact_ends 19 r1)
          (λ (nonce, r2) _. ok-Ends _))))

read_compressed_header-Ends : (r : Reader) → Ends (read_compressed_header r)
unfolding read_compressed_header
read_compressed_header-Ends r = bind_ends (read_exact 2 r) _ (read_exact_ends 2 r) (λ (meta, r1) _.
    let finished : Result CodecError (ℕ × Reader) = ok (second_byte meta, r1) in
    bail-Ends (not (first_byte meta == comp_version)) unsupported_version
      (bail_if (not (second_byte meta == comp_alg_zstd_chunked)) unsupported_algorithm >> finished)
      (λ e. cc)
      (bail-Ends (not (second_byte meta == comp_alg_zstd_chunked)) unsupported_algorithm finished
        (λ e. cc) (ok-Ends _)))

or_failed-Ends : (x : CodecError) (o : Option Str) → x ≢ out_of_fuel → Ends (or_failed x o)
or_failed-Ends x none h e = h cc
or_failed-Ends x (some s) h e = ground arith

module _ (zstd : Zstd) where
  zstd-Ends : (ct : Str) (room : ℕ) → Ends (or_failed zstd_failed (zstd.decompress ct room))
  zstd-Ends ct room = or_failed-Ends zstd_failed (zstd.decompress ct room) (λ e. cc)

  unpacked-Ends : (n : ℕ) (ct : Str) → Ends (unpacked zstd n ct)
  unpacked-Ends n [] e = ground (arith, zstd-Ends [] n)
  unpacked-Ends n (b ∷ bs) e = ground (arith, zstd-Ends (b ∷ bs) n, zstd-Ends (b ∷ bs) 0)

  decompress_zstd_payload-Ends : (payload : Str) → Ends (decompress_zstd_payload zstd payload)
  unfolding decompress_zstd_payload
  decompress_zstd_payload-Ends payload e =
      ground (arith, unpacked-Ends (from_be_bytes (take 4 payload)) (drop 4 payload))

  decrypted_chunk-Ends :
      (aead : Aead) (key nonce : Str) (alg position : ℕ) (last : Bool) (ct : Str)
      → Ends (decrypted_chunk zstd aead key nonce alg position last ct)
  unfolding decrypted_chunk
  decrypted_chunk-Ends aead key nonce alg position last ct =
      bind_ends _ _
        (or_failed-Ends cipher_failed (aead.unseal key nonce position last ct) (λ e. cc))
        (λ d _ e. ground (arith, decompress_zstd_payload-Ends d))

unless_last-Ends :
    (last : Bool) (x : Str × ℕ) (more : Unit {0} → Result CodecError (Str × ℕ))
    → Ends (more tt)
    → Ends (unless_last last (ok x) more)
unless_last-Ends true x more h e = ground arith
unless_last-Ends false x more h e = h e

-- Each round reads a frame, of at least four bytes.
copy_chunks-Ends :
    (decode : ℕ → Bool → Str → Result CodecError Str)
    → ((position : ℕ) (last : Bool) (ct : Str) → Ends (decode position last ct))
    → (fuel position : ℕ) (out : Str) (total : ℕ) (r : Reader) → length r.bytes < fuel
    → Ends (copy_chunks decode fuel position out total r)
unfolding copy_chunks
copy_chunks-Ends decode d zero position out total r h = absurd (omega arith)
copy_chunks-Ends decode d (suc fuel) position out total r h =
    bind_ends (read_framed_chunk r) _ (read_framed_chunk_ends r) (λ ((ct, last), r1) c.
      bind_ends (decode position last ct) _ (d position last ct) (λ pt _.
        unless_last-Ends last (out ++ pt, sat_add total (length pt))
          (λ _. copy_chunks decode fuel (suc position) (out ++ pt) (sat_add total (length pt)) r1)
          (copy_chunks-Ends decode d fuel (suc position) (out ++ pt) (sat_add total (length pt)) r1
            (omega (arith, read_framed_chunk_takes r ct last r1 c)))))

unless_end-Ends :
    (b : Str) (x : Str × ℕ) (more : Str → Result CodecError (Str × ℕ))
    → (1 ≤ length b → Ends (more b))
    → Ends (unless_end b (ok x) more)
unless_end-Ends [] x more h e = ground arith
unless_end-Ends (a ∷ b) x more h e = h (omega arith) e

-- Each round but the last reads a byte at least.
copy_plain_loop_stops :
    (fuel : ℕ) (out : Str) (total : ℕ) (r : Reader)
    → length r.bytes < fuel
    → Ends (copy_plain_loop fuel out total r)
unfolding copy_plain_loop
copy_plain_loop_stops zero out total r h = absurd (omega arith)
copy_plain_loop_stops (suc fuel) out total r h =
    bind_ends (read_chunk copy_buffer_bytes r) _ (read_chunk_ends copy_buffer_bytes r) (λ (b, r1) c.
      let (split, short) = read_chunk_splits copy_buffer_bytes r b r1 c in
      unless_end-Ends b (out, total)
        (λ more. copy_plain_loop fuel (out ++ more) (sat_add total (length more)) r1)
        (λ some.
          copy_plain_loop_stops fuel (out ++ b) (sat_add total (length b)) r1
            (omega (arith, ap length split, length-append b r1.bytes))))

module _ (zstd : Zstd) (aead : Aead) where
  copied-Ends :
      (cipher : Option BlobCipher) (out : Str) (start : (ProbedMagic × Str) × Reader)
      → Ends (copied zstd aead cipher out start)
  unfolding decrypt_stream_to_writer decompress_stream_to_writer copy_plain_stream
  copied-Ends none out ((encrypted, prefix), r) = λ e. ground arith
  copied-Ends (some cipher) out ((encrypted, prefix), r) =
      bind_ends (read_encrypted_header r) _ (read_encrypted_header-Ends r) (λ (header, r1) _.
        copy_chunks-Ends (decrypted_chunk zstd aead cipher.key header.nonce header.alg)
          (decrypted_chunk-Ends zstd aead cipher.key header.nonce header.alg) (rounds r1) 0 out 0 r1
          (omega arith))
  copied-Ends cipher out ((compressed, prefix), r) =
      bind_ends (read_compressed_header r) _ (read_compressed_header-Ends r) (λ (header, r1) _.
        copy_chunks-Ends (λ position last ct. decompress_zstd_payload zstd ct)
          (λ position last ct. decompress_zstd_payload-Ends zstd ct) (rounds r1) 0 out 0 r1
          (omega arith))
  copied-Ends cipher out ((plain, prefix), r) =
      bind_ends (copy_plain_loop (rounds r) (out ++ prefix) 0 r) _
        (copy_plain_loop_stops (rounds r) (out ++ prefix) 0 r (omega arith)) (λ _ _. ok-Ends _)

  -- Decoding ends on every blob, whatever its bytes and however its reads come out: its loops do not
  -- run out of rounds.
  pub copy_blob_plaintext_to_writer-Ends :
      (cipher : Option BlobCipher) (r : Reader) (out : Str)
      → copy_blob_plaintext_to_writer zstd aead cipher (ok r) out ≢ err out_of_fuel
  unfolding copy_blob_plaintext_to_writer probe_magic_prefix
  copy_blob_plaintext_to_writer-Ends cipher r out =
      bind_ends (probe_magic_prefix r) _
        (bind_ends (probe_loop 8 8 r) _ (probe_loop-Ends 8 8 r (omega arith)) (λ _ _. ok-Ends _))
        (λ start _. copied-Ends cipher out start)
