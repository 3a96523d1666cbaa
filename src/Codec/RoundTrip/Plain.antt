-- ===== src/Codec/RoundTrip/Plain.antt =====
-- The plain copy of a file's bytes in crates/core/src/encryption/blobs.rs.
use mathlib.Core.Path.{subst}
use mathlib.Core.List.{append_assoc, append-nil}
use backup_sync.Prelude.{
  ℕ, zero, suc, ◌+◌, ◌≤◌, ◌<◌, ◌≡◌, refl, sym, ap, ◌∙◌, [], ◌∷◌, ◌++◌, Str, length, length-append,
  take, Result, ok, bind_ok, arith,
}
use backup_sync.Codec.Reader.{CodecError, Reader, read_chunk}
use backup_sync.Codec.Reader.Steady.{IsSteady, read_chunk_splits, read_chunk-IsSteady}
use backup_sync.Codec.RoundTrip.Chunks.{ended}
use backup_sync.Codec.Encode.{sat_add, unless_end}
use backup_sync.Codec.Decode.{copy_plain_loop, copy_buffer_bytes}

pub sat_add_assoc : (a b c : ℕ) → sat_add (sat_add a b) c ≡ sat_add a (b + c)
unfolding sat_add
sat_add_assoc a b c = omega arith

pub sat_add_zero : (a b : ℕ) → sat_add (sat_add a b) 0 ≡ sat_add a b
unfolding sat_add
sat_add_zero a b = omega arith

-- What a copy that ends wrote, from a count that saturated already if it had to.
unfoldable pub IsCopied : Str → ℕ → Str → Str → ℕ → Type 0
IsCopied out total bytes out1 total1 =
    (out1 ≡ out ++ bytes) × (total1 ≡ sat_add total (length bytes))

IsCopied-more :
    (out : Str) (total : ℕ) (b rest out1 : Str) (total1 : ℕ)
    → IsCopied (out ++ b) (sat_add total (length b)) rest out1 total1
    → IsCopied out total (b ++ rest) out1 total1
unfolding IsCopied
IsCopied-more out total b rest out1 total1 (same, count) = (
  same ∙ append_assoc out b rest,
  count
      ∙ sat_add_assoc total (length b) (length rest)
      ∙ ap (sat_add total) (sym (length-append b rest)),
)

sat_add_le : (a b : ℕ) → sat_add a b ≤ 0xFFFF_FFFF_FFFF_FFFF
unfolding sat_add
sat_add_le a b = omega arith

IsCopied-nil :
    (out : Str) (total : ℕ) → total ≤ 0xFFFF_FFFF_FFFF_FFFF → IsCopied out total [] out total
unfolding IsCopied sat_add
IsCopied-nil out total h = (sym (append-nil out), omega arith)

-- One round, once it read `b`.
copy_round :
    (more : Str → Result CodecError (Str × ℕ)) (b ahead out : Str) (total : ℕ) (out1 : Str)
    (total1 : ℕ)
    → total ≤ 0xFFFF_FFFF_FFFF_FFFF
    → (b ≡ [] → ahead ≡ [])
    → (more b ≡ ok (out1, total1)
        → IsCopied (out ++ b) (sat_add total (length b)) ahead out1 total1)
    → unless_end b (ok (out, total)) more ≡ ok (out1, total1)
    → IsCopied out total (b ++ ahead) out1 total1
copy_round more [] ahead out total out1 total1 h nil ih e =
    let same : out1 ≡ out = cc in
    let count : total1 ≡ total = cc in rw (nil refl, same, count) (IsCopied-nil out total h)
copy_round more (x ∷ b) ahead out total out1 total1 h nil ih e =
    IsCopied-more out total (x ∷ b) ahead out1 total1 (ih e)

-- A copy that ends wrote the whole file.
pub copy_plain_loop-IsCopied :
    (fuel : ℕ) (out : Str) (total : ℕ) (r : Reader) (out1 : Str) (total1 : ℕ)
    → total ≤ 0xFFFF_FFFF_FFFF_FFFF
    → copy_plain_loop fuel out total r ≡ ok (out1, total1)
    → IsCopied out total r.bytes out1 total1
unfolding copy_plain_loop
copy_plain_loop-IsCopied zero out total r out1 total1 h e = absurd (ground arith)
copy_plain_loop-IsCopied (suc fuel) out total r out1 total1 h e =
    let ((b, r1), c, e1) = bind_ok (read_chunk copy_buffer_bytes r) _ (out1, total1) e in
    let (split, short) = read_chunk_splits copy_buffer_bytes r b r1 c in
    subst (λ (t : Str). IsCopied out total t out1 total1) split
      (copy_round (λ more. copy_plain_loop fuel (out ++ more) (sat_add total (length more)) r1) b
        r1.bytes out total out1 total1 h (λ nil. ended copy_buffer_bytes r b r1 (omega arith) nil c)
        (copy_plain_loop-IsCopied fuel (out ++ b) (sat_add total (length b)) r1 out1 total1
          (sat_add_le total (length b)))
        e1)

-- A copy of a steady file ends.
unless_end_ok :
    (b : Str) (x : Str × ℕ) (more : Str → Result CodecError (Str × ℕ))
    → (1 ≤ length b → (y : Str × ℕ) × (more b ≡ ok y))
    → (y : Str × ℕ) × (unless_end b (ok x) more ≡ ok y)
unless_end_ok [] x more h = (x, refl)
unless_end_ok (a ∷ b) x more h = h (omega arith)

copy_plain_loop_ends :
    (fuel : ℕ) (out : Str) (total : ℕ) (r : Reader)
    → length r.bytes < fuel
    → IsSteady r
    → (y : Str × ℕ) × (copy_plain_loop fuel out total r ≡ ok y)
unfolding copy_plain_loop
copy_plain_loop_ends zero out total r h s = absurd (omega arith)
copy_plain_loop_ends (suc fuel) out total r h s =
    let (m, r1, c, d, s1, hi, lo) = read_chunk-IsSteady copy_buffer_bytes r s in
    let b : Str = take m r.bytes in
    let (split, short) = read_chunk_splits copy_buffer_bytes r b r1 c in
    let (y, e) =
      unless_end_ok b (out, total)
        (λ more. copy_plain_loop fuel (out ++ more) (sat_add total (length more)) r1)
        (λ some.
          copy_plain_loop_ends fuel (out ++ b) (sat_add total (length b)) r1
            (omega (arith, ap length split, length-append b r1.bytes)) s1) in
    (y, rw c e)

pub copy_plain_loop_steady :
    (fuel : ℕ) (out : Str) (r : Reader)
    → length r.bytes < fuel
    → IsSteady r
    → copy_plain_loop fuel out 0 r ≡ ok (out ++ r.bytes, sat_add 0 (length r.bytes))
unfolding IsCopied
copy_plain_loop_steady fuel out r h s =
    let ((out1, total1), e) = copy_plain_loop_ends fuel out 0 r h s in
    let (same, count) = copy_plain_loop-IsCopied fuel out 0 r out1 total1 (omega arith) e in
    let done : Str → ℕ → Result CodecError (Str × ℕ) = λ t n. ok (t, n) in
    e ∙ ap (λ t. done t total1) same ∙ ap (done (out ++ r.bytes)) count
