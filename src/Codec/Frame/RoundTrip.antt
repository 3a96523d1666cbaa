-- ===== src/Codec/Frame/RoundTrip.antt =====
-- Frames written and read back, crates/core/src/encryption/blobs.rs.
use mathlib.Core.List.{append_assoc}
use backup_sync.Prelude.{
  ℕ, ◌+◌, ◌%◌, ◌^◌, ◌≤◌, ◌<◌, ◌≡◌, refl, sym, ap, ◌∙◌, ◌≢◌, Bool, true, false, Bool-cases, inl, inr,
  ◌++◌, ltb, Str, length, length-append, ok, err, bind_ok, err-ne-ok, arith,
}
use backup_sync.Codec.Reader.{too_large, out_of_fuel, Reader, read_exact}
use backup_sync.Codec.Reader.Steady.{IsSteady, read_exact-IsSteady, read_exact_splits}
use backup_sync.Codec.Reader.Ends.{read_exact_ends, bind_ends}
use backup_sync.Codec.Frame.{
  to_be_bytes, from_be_bytes, with_mark, write_framed_chunk, read_framed_chunk, has_mark,
  without_mark,
}

-- A `u32` is read back from its bytes.
pub from_be_bytes-to_be_bytes : (n : ℕ) → n < 2 ^ 32 → from_be_bytes (to_be_bytes n) ≡ n
unfolding from_be_bytes to_be_bytes
from_be_bytes-to_be_bytes n h = omega arith

with_mark-lt : (last : Bool) (n : ℕ) → n < 2 ^ 31 → with_mark last n < 2 ^ 32
unfolding with_mark
with_mark-lt true n h = omega arith
with_mark-lt false n h = omega arith

has_mark-with_mark : (last : Bool) (n : ℕ) → n < 2 ^ 31 → has_mark (with_mark last n) ≡ last
unfolding with_mark
has_mark-with_mark true n h = ground arith
has_mark-with_mark false n h = ground arith

without_mark-with_mark : (last : Bool) (n : ℕ) → n < 2 ^ 31 → without_mark (with_mark last n) ≡ n
unfolding with_mark
without_mark-with_mark true n h = omega arith
without_mark-with_mark false n h = omega arith

-- The bytes of a frame.
unfoldable pub frame : Str → Bool → Str
frame chunk last = to_be_bytes (with_mark last (length chunk)) ++ chunk

length-to_be_bytes : (n : ℕ) → length (to_be_bytes n) ≡ 4
unfolding to_be_bytes
length-to_be_bytes n = refl

pub length-frame : (chunk : Str) (last : Bool) → length (frame chunk last) ≡ 4 + length chunk
unfolding frame to_be_bytes
length-frame chunk last = omega arith

-- A chunk that fits is written as its frame; another is refused.
pub write_framed_chunk_fits :
    (out chunk : Str) (last : Bool)
    → length chunk < 2 ^ 31
    → write_framed_chunk out chunk last ≡ ok (out ++ frame chunk last)
unfolding write_framed_chunk frame
write_framed_chunk_fits out chunk last h =
    let small : ltb 0x7FFF_FFFF (length chunk) ≡ false = ground arith in
    let low : length chunk % 2 ^ 32 ≡ length chunk = omega arith in
    rw (small, low) (rw (append_assoc out (to_be_bytes (with_mark last (length chunk))) chunk))

pub write_framed_chunk_written :
    (out chunk : Str) (last : Bool) (after : Str)
    → write_framed_chunk out chunk last ≡ ok after
    → (after ≡ out ++ frame chunk last) × (length chunk < 2 ^ 31)
unfolding write_framed_chunk
write_framed_chunk_written out chunk last after e =
    elim (Bool-cases (ltb 0x7FFF_FFFF (length chunk))) [
      | inl t ↦
          absurd (err-ne-ok {m = write_framed_chunk out chunk last} {x = too_large} (rw t refl) e)
      | inr f ↦
          let fits : length chunk < 2 ^ 31 = ground arith in
          let same = sym e ∙ write_framed_chunk_fits out chunk last fits in (cc, fits)
    ]

-- The two reads of a frame.
read_frame_parts :
    (n : ℕ) (chunk rest : Str) (last : Bool) (r : Reader)
    → n < 2 ^ 32
    → without_mark n ≡ length chunk
    → has_mark n ≡ last
    → IsSteady r
    → r.bytes ≡ to_be_bytes n ++ (chunk ++ rest)
    → (after : Reader) × (read_framed_chunk r ≡ ok ((chunk, last), after))
      × (after.bytes ≡ rest)
      × IsSteady after
unfolding read_framed_chunk
read_frame_parts n chunk rest last r h len mark s e =
    let (r1, head, ahead, s1) = read_exact-IsSteady (to_be_bytes n) (chunk ++ rest) r s e in
    let (r2, body, left, s2) = read_exact-IsSteady chunk rest r1 s1 ahead in
    let header : read_exact 4 r ≡ ok (to_be_bytes n, r1) =
      ap (λ k. read_exact k r) (sym (length-to_be_bytes n)) ∙ head in
    (r2, rw (header, from_be_bytes-to_be_bytes n h, len, body, mark), left, s2)

-- A frame that was written is read back, with its mark, and the file is left right behind it.
pub read_framed_chunk-frame :
    (chunk rest : Str) (last : Bool) (r : Reader)
    → length chunk < 2 ^ 31
    → IsSteady r
    → r.bytes ≡ frame chunk last ++ rest
    → (after : Reader) × (read_framed_chunk r ≡ ok ((chunk, last), after))
      × (after.bytes ≡ rest)
      × IsSteady after
unfolding frame
read_framed_chunk-frame chunk rest last r fits s e =
    let n : ℕ = with_mark last (length chunk) in
    read_frame_parts n chunk rest last r (with_mark-lt last (length chunk) fits)
      (without_mark-with_mark last (length chunk) fits)
      (has_mark-with_mark last (length chunk) fits) s (e ∙ append_assoc (to_be_bytes n) chunk rest)

-- A frame has at least four bytes.
pub read_framed_chunk_takes :
    (r : Reader) (chunk : Str) (last : Bool) (after : Reader)
    → read_framed_chunk r ≡ ok ((chunk, last), after)
    → length after.bytes + 4 ≤ length r.bytes
unfolding read_framed_chunk
read_framed_chunk_takes r chunk last after e =
    let ((head, r1), c, e1) = bind_ok (read_exact 4 r) _ ((chunk, last), after) e in
    let ((buf, r2), d, e2) =
      bind_ok (read_exact (without_mark (from_be_bytes head)) r1) _ ((chunk, last), after) e1 in
    let (split1, len1) = read_exact_splits 4 r head r1 c in
    let (split2, len2) = read_exact_splits (without_mark (from_be_bytes head)) r1 buf r2 d in
    let same : r2 ≡ after = cc in
    omega (
      arith,
      len1,
      ap length split1,
      ap length split2,
      ap (λ (x : Reader). length x.bytes) same,
      length-append head r1.bytes,
      length-append buf r2.bytes,
    )

pub read_framed_chunk_ends : (r : Reader) → read_framed_chunk r ≢ err out_of_fuel
unfolding read_framed_chunk
read_framed_chunk_ends r = bind_ends (read_exact 4 r) _ (read_exact_ends 4 r) (λ (head, r1) c.
    bind_ends (read_exact _ r1) _ (read_exact_ends _ r1) (λ (buf, r2) d e. ground arith))
