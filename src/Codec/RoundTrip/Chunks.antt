-- ===== src/Codec/RoundTrip/Chunks.antt =====
-- The loop that writes the chunks of an encoded stream and the one that reads them, in
-- crates/core/src/encryption/blobs.rs.
use mathlib.Core.Path.{subst}
use mathlib.Core.List.{append_assoc, append-nil}
use backup_sync.Prelude.{
  ℕ, zero, suc, ◌^◌, ◌≤◌, ◌<◌, ◌≡◌, refl, sym, ap, ◌∙◌, Bool, true, false, [], ◌∷◌, ◌++◌, Str,
  length, length-append, Result, ok, ◌>>=◌, bind_ok, arith,
}
use backup_sync.Codec.Reader.{CodecError, Reader, read_chunk}
use backup_sync.Codec.Reader.Steady.{IsSteady, read_chunk_splits, read_chunk_nil}
use backup_sync.Codec.Frame.RoundTrip.{
  frame, length-frame, write_framed_chunk_written, read_framed_chunk-frame,
}
use backup_sync.Codec.Encode.{sat_add, is_end, unless_end, add_chunk, write_chunks, write_stream}
use backup_sync.Codec.Decode.{copy_chunks, unless_last}

pub ended :
    (n : ℕ) (r : Reader) (b : Str) (after : Reader)
    → 1 ≤ n
    → b ≡ []
    → read_chunk n r ≡ ok (b, after)
    → after.bytes ≡ []
ended n r b after h nil e =
    let given : Str → Result CodecError (Str × Reader) = λ t. ok (t, after) in
    let all = read_chunk_nil n r after h (e ∙ ap given nil) in
    let (split, short) = read_chunk_splits n r b after e in
    ap (λ t. t ++ after.bytes) (sym nil) ∙ split ∙ all

module _ (decode : ℕ → Bool → Str → Result CodecError Str) where
  -- From the chunk at `position` on, `body` decodes to `plaintext`, and `total` becomes `total1`.
  abbrev pub IsBody : ℕ → ℕ → Str → Str → ℕ → Type 0
  IsBody position total body plaintext total1 =
      (r : Reader) (behind out : Str) (fuel : ℕ)
      → IsSteady r
      → r.bytes ≡ body ++ behind
      → length body ≤ fuel
      → copy_chunks decode fuel position out total r ≡ ok (out ++ plaintext, total1)

  -- One round of the loop that reads.
  read_round :
      (position total : ℕ) (pt ct rest : Str) (last : Bool) (r : Reader) (out : Str) (fuel : ℕ)
      → decode position last ct ≡ ok pt
      → length ct < 2 ^ 31
      → IsSteady r
      → r.bytes ≡ frame ct last ++ rest
      → (r1 : Reader) × (r1.bytes ≡ rest)
        × IsSteady r1
        × (copy_chunks decode (suc fuel) position out total r
            ≡ unless_last last (ok (out ++ pt, sat_add total (length pt))) (λ _.
              copy_chunks decode fuel (suc position) (out ++ pt) (sat_add total (length pt)) r1))
  unfolding copy_chunks
  read_round position total pt ct rest last r out fuel d fits s e =
      let (r1, c, left, s1) = read_framed_chunk-frame ct rest last r fits s e in
      (r1, left, s1, rw (c, d) refl)

  IsBody-last :
      (position total : ℕ) (pt ct : Str)
      → decode position true ct ≡ ok pt
      → length ct < 2 ^ 31
      → IsBody position total (frame ct true) pt (sat_add total (length pt))
  IsBody-last position total pt ct d fits r behind out zero s e f =
      absurd (omega (arith, length-frame ct true))
  IsBody-last position total pt ct d fits r behind out (suc fuel) s e f =
      let (r1, left, s1, c) = read_round position total pt ct behind true r out fuel d fits s e in c

  IsBody-next :
      (position total : ℕ) (pt ct body plaintext : Str) (total1 : ℕ)
      → decode position false ct ≡ ok pt
      → length ct < 2 ^ 31
      → IsBody (suc position) (sat_add total (length pt)) body plaintext total1
      → IsBody position total (frame ct false ++ body) (pt ++ plaintext) total1
  IsBody-next position total pt ct body plaintext total1 d fits ih r behind out zero s e f =
      absurd (omega (arith, length-append (frame ct false) body, length-frame ct false))
  IsBody-next position total pt ct body plaintext total1 d fits ih r behind out (suc fuel) s e f =
      let split : r.bytes ≡ frame ct false ++ (body ++ behind) =
        e ∙ append_assoc (frame ct false) body behind in
      let (r1, left, s1, c) =
        read_round position total pt ct (body ++ behind) false r out fuel d fits s split in
      let room : length body ≤ fuel =
        omega (arith, length-append (frame ct false) body, length-frame ct false) in
      let done : Str → Result CodecError (Str × ℕ) = λ t. ok (t, total1) in
      c ∙ ih r1 behind (out ++ pt) fuel s1 left room ∙ ap done (append_assoc out pt plaintext)

module _ (encode decode : ℕ → Bool → Str → Result CodecError Str) where
  -- A chunk of at most `limit` bytes that is encoded decodes to itself.
  abbrev pub IsInverse : ℕ → Type 0
  IsInverse limit =
      (position : ℕ) (last : Bool) (pt ct : Str)
      → length pt ≤ limit
      → encode position last pt ≡ ok ct
      → decode position last ct ≡ ok pt

  -- What the loop that writes adds to its output.
  abbrev pub IsWritten : ℕ → Str → ℕ → Str → Str → ℕ → Type 0
  IsWritten position out total out1 plaintext total1 =
      (body : Str) × (out1 ≡ out ++ body) × IsBody decode position total body plaintext total1

  module _ (limit chunk_bytes : ℕ) (inverse : IsInverse limit) (some_bytes : 1 ≤ chunk_bytes)
      (within : chunk_bytes ≤ limit) where
    add_chunk_written :
        (position : ℕ) (last : Bool) (pt out out1 : Str)
        → length pt ≤ limit
        → add_chunk encode chunk_bytes position last pt out ≡ ok out1
        → (ct : Str) × (out1 ≡ out ++ frame ct last)
          × (decode position last ct ≡ ok pt)
          × (length ct < 2 ^ 31)
    unfolding add_chunk
    add_chunk_written position last pt out out1 h e =
        let (ct, d, w) = bind_ok (encode position last pt) _ out1 e in
        let (same, fits) = write_framed_chunk_written out ct last out1 w in
        (ct, same, inverse position last pt ct h d, fits)

    -- One round of the loop that writes, once it read `b`.
    write_round :
        (more : Str → Str → Result CodecError (Str × ℕ)) (b ahead a : Str) (position : ℕ)
        (out : Str) (total : ℕ) (out1 : Str) (total1 : ℕ)
        → length a ≤ chunk_bytes
        → (b ≡ [] → ahead ≡ [])
        → ((o : Str)
            → more b o ≡ ok (out1, total1)
            → IsWritten (suc position) o (sat_add total (length a)) out1 (b ++ ahead) total1)
        → (do
          o ← add_chunk encode chunk_bytes position (is_end b) a out
          unless_end b (ok (o, sat_add total (length a))) (λ next. more next o))
          ≡ ok (out1, total1)
        → IsWritten position out total out1 (a ++ (b ++ ahead)) total1
    write_round more [] ahead a position out total out1 total1 h nil ih e =
        let (o, w, e1) =
          bind_ok (add_chunk encode chunk_bytes position true a out) _ (out1, total1) e in
        let (ct, same, d, fits) = add_chunk_written position true a out o (omega arith) w in
        let ended : out1 ≡ o = cc in
        let counted : total1 ≡ sat_add total (length a) = cc in
        let all : a ++ ahead ≡ a = ap (λ t. a ++ t) (nil refl) ∙ append-nil a in
        rw (ended, counted, all)
          (frame ct true, same, IsBody-last decode position total a ct d fits)
    write_round more (x ∷ b) ahead a position out total out1 total1 h nil ih e =
        let (o, w, e1) =
          bind_ok (add_chunk encode chunk_bytes position false a out) _ (out1, total1) e in
        let (ct, same, d, fits) = add_chunk_written position false a out o (omega arith) w in
        let (body, grown, reads) = ih o e1 in
        (
          frame ct false ++ body,
          grown ∙ ap (λ t. t ++ body) same ∙ append_assoc out (frame ct false) body,
          IsBody-next decode position total a ct body (x ∷ b ++ ahead) total1 d fits reads,
        )

    write_chunks-IsWritten :
        (fuel : ℕ) (a : Str) (position : ℕ) (out : Str) (total : ℕ) (r : Reader) (out1 : Str)
        (total1 : ℕ)
        → length a ≤ chunk_bytes
        → write_chunks encode chunk_bytes fuel a position out total r ≡ ok (out1, total1)
        → IsWritten position out total out1 (a ++ r.bytes) total1
    unfolding write_chunks
    write_chunks-IsWritten zero a position out total r out1 total1 h e = absurd (ground arith)
    write_chunks-IsWritten (suc fuel) a position out total r out1 total1 h e =
        let ((b, r1), c, e1) = bind_ok (read_chunk chunk_bytes r) _ (out1, total1) e in
        let (split, short) = read_chunk_splits chunk_bytes r b r1 c in
        let more : Str → Str → Result CodecError (Str × ℕ) = λ next o.
          write_chunks encode chunk_bytes fuel next (suc position) o (sat_add total (length a))
            r1 in
        subst (λ (t : Str). IsWritten position out total out1 (a ++ t) total1) split
          (write_round more b r1.bytes a position out total out1 total1 h
            (λ end. ended chunk_bytes r b r1 some_bytes end c)
            (λ o.
              write_chunks-IsWritten fuel b (suc position) o (sat_add total (length a)) r1 out1
                total1 short)
            e1)

    first_round :
        (more : Str → Result CodecError (Str × ℕ)) (a ahead out out1 : Str) (total1 : ℕ)
        → (a ≡ [] → ahead ≡ [])
        → (more a ≡ ok (out1, total1) → IsWritten 0 out 0 out1 (a ++ ahead) total1)
        → unless_end a (do o ← add_chunk encode chunk_bytes 0 true [] out; ok (o, 0)) more
          ≡ ok (out1, total1)
        → IsWritten 0 out 0 out1 (a ++ ahead) total1
    unfolding sat_add
    first_round more [] ahead out out1 total1 nil ih e =
        let (o, w, e1) = bind_ok (add_chunk encode chunk_bytes 0 true [] out) _ (out1, total1) e in
        let (ct, same, d, fits) = add_chunk_written 0 true [] out o (omega arith) w in
        let ended : out1 ≡ o = cc in
        let counted : total1 ≡ 0 = cc in
        rw (ended, counted, nil refl) (frame ct true, same, IsBody-last decode 0 0 [] ct d fits)
    first_round more (x ∷ a) ahead out out1 total1 nil ih e = ih e

    -- An encoded file is what was written before it and a body that decodes to the file.
    pub write_stream-IsWritten :
        (out : Str) (r : Reader) (out1 : Str) (total1 : ℕ)
        → write_stream encode chunk_bytes out r ≡ ok (out1, total1)
        → IsWritten 0 out 0 out1 r.bytes total1
    unfolding write_stream
    write_stream-IsWritten out r out1 total1 e =
        let ((a, r1), c, e1) = bind_ok (read_chunk chunk_bytes r) _ (out1, total1) e in
        let (split, short) = read_chunk_splits chunk_bytes r a r1 c in
        subst (λ (t : Str). IsWritten 0 out 0 out1 t total1) split
          (first_round
            (λ next. write_chunks encode chunk_bytes (suc (length r.bytes)) next 0 out 0 r1) a
            r1.bytes out out1 total1 (λ end. ended chunk_bytes r a r1 some_bytes end c)
            (λ e2. write_chunks-IsWritten (suc (length r.bytes)) a 0 out 0 r1 out1 total1 short e2)
            e1)
