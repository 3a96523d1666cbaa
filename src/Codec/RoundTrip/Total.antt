-- ===== src/Codec/RoundTrip/Total.antt =====
-- Writing a blob of crates/core/src/encryption/blobs.rs from a file whose reads do not fail.
use backup_sync.Prelude.{
  ℕ, zero, suc, ◌+◌, ◌^◌, ◌≤◌, ◌<◌, ◌≡◌, refl, sym, ap, ◌∙◌, Bool, true, [], ◌∷◌, ◌++◌, Str, length,
  length-append, take, Result, ok, ◌>>=◌, arith,
}
use backup_sync.Codec.Reader.{CodecError, Reader}
use backup_sync.Codec.Reader.Steady.{IsSteady, read_chunk-IsSteady, read_chunk_splits}
use backup_sync.Codec.Frame.RoundTrip.{frame, write_framed_chunk_fits}
use backup_sync.Codec.Encode.{sat_add, is_end, unless_end, add_chunk, write_chunks, write_stream}

module _ (encode : ℕ → Bool → Str → Result CodecError Str) (chunk_bytes most : ℕ)
    (some_bytes : 1 ≤ chunk_bytes)
    (runs : (position : ℕ) (last : Bool) (pt : Str)
      → position ≤ most
      → length pt ≤ chunk_bytes
      → (ct : Str) × (encode position last pt ≡ ok ct) × (length ct < 2 ^ 31)) where
  add_chunk_runs :
      (position : ℕ) (last : Bool) (pt out : Str)
      → position ≤ most
      → length pt ≤ chunk_bytes
      → (out1 : Str) × (add_chunk encode chunk_bytes position last pt out ≡ ok out1)
  unfolding add_chunk
  add_chunk_runs position last pt out p h =
      let (ct, c, fits) = runs position last pt p h in
      (out ++ frame ct last, rw c (write_framed_chunk_fits out ct last fits))

  unless_end_runs :
      (b : Str) (done : Result CodecError (Str × ℕ)) (more : Str → Result CodecError (Str × ℕ))
      → (y : Str × ℕ) × (done ≡ ok y)
      → (1 ≤ length b → (y : Str × ℕ) × (more b ≡ ok y))
      → (y : Str × ℕ) × (unless_end b done more ≡ ok y)
  unless_end_runs [] done more k h = k
  unless_end_runs (a ∷ b) done more k h = h (omega arith)

  -- Each further chunk has at least one byte, so the rounds and the positions suffice.
  write_chunks_runs :
      (fuel : ℕ) (a : Str) (position : ℕ) (out : Str) (total : ℕ) (r : Reader)
      → length r.bytes < fuel
      → position + length r.bytes ≤ most
      → length a ≤ chunk_bytes
      → IsSteady r
      → (y : Str × ℕ) × (write_chunks encode chunk_bytes fuel a position out total r ≡ ok y)
  unfolding write_chunks
  write_chunks_runs zero a position out total r f p h s = absurd (omega arith)
  write_chunks_runs (suc fuel) a position out total r f p h s =
      let (m, r1, c, d, s1, hi, lo) = read_chunk-IsSteady chunk_bytes r s in
      let b : Str = take m r.bytes in
      let (split, short) = read_chunk_splits chunk_bytes r b r1 c in
      let sizes : length b + length r1.bytes ≡ length r.bytes =
        sym (length-append b r1.bytes) ∙ ap length split in
      let (out1, w) = add_chunk_runs position (is_end b) a out (omega arith) h in
      let (y, e) =
        unless_end_runs b (ok (out1, sat_add total (length a)))
          (λ next.
            write_chunks encode chunk_bytes fuel next (suc position) out1 (sat_add total (length a))
              r1)
          ((out1, sat_add total (length a)), refl)
          (λ some.
            write_chunks_runs fuel b (suc position) out1 (sat_add total (length a)) r1
              (omega (arith, sizes)) (omega (arith, sizes)) short s1) in
      (y, rw c (rw w e))

  pub write_stream_runs :
      (out : Str) (r : Reader)
      → length r.bytes ≤ most
      → IsSteady r
      → (y : Str × ℕ) × (write_stream encode chunk_bytes out r ≡ ok y)
  unfolding write_stream
  write_stream_runs out r p s =
      let (m, r1, c, d, s1, hi, lo) = read_chunk-IsSteady chunk_bytes r s in
      let a : Str = take m r.bytes in
      let (split, short) = read_chunk_splits chunk_bytes r a r1 c in
      let sizes : length a + length r1.bytes ≡ length r.bytes =
        sym (length-append a r1.bytes) ∙ ap length split in
      let (out1, w) = add_chunk_runs 0 true [] out (omega arith) (omega arith) in
      let counted : Str → Result CodecError (Str × ℕ) = λ o. ok (o, 0) in
      let empty : Result CodecError (Str × ℕ) =
        add_chunk encode chunk_bytes 0 true [] out >>= counted in
      let (y, e) =
        unless_end_runs a empty
          (λ first. write_chunks encode chunk_bytes (suc (length r.bytes)) first 0 out 0 r1)
          ((out1, 0), rw w refl)
          (λ some.
            write_chunks_runs (suc (length r.bytes)) a 0 out 0 r1 (omega (arith, sizes))
              (omega (arith, sizes, p)) short s1) in
      (y, rw c e)
