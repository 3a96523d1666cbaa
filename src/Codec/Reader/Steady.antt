-- ===== src/Codec/Reader/Steady.antt =====
-- Reads of a file by crates/core/src/encryption/blobs.rs in relation to its contents.
use mathlib.Core.List.{append_assoc}
use backup_sync.Prelude.{
  ℕ, zero, suc, ◌-◌, ◌≤◌, min, ◌≡◌, refl, ap, ◌∙◌, Bool, true, false, List, [], ◌∷◌, ◌++◌, Str,
  length, take, drop, length-append, length-take, length-drop, take-append-drop, Result, ok, err,
  bind_ok, arith,
}
use backup_sync.Codec.Reader.{
  CodecError, Grant, late, fails, gives, Reader, granted, read_chunk, read_exact_loop, read_exact,
  exact_after, prefixed,
}

granted_splits :
    (n : ℕ) (bs : Str) (gs : List Grant) (got : Str) (after : Reader)
    → granted n bs gs ≡ ok (got, after)
    → (got ++ after.bytes ≡ bs) × (length got ≤ n)
granted_splits n bs [] got after e = ground (arith, take-append-drop n bs, length-take n bs)
granted_splits n bs (late ∷ gs) got after e = ground arith
granted_splits n bs (fails ∷ gs) got after e = ground arith
granted_splits n bs (gives k ∷ gs) got after e =
    let m = min n (suc k) in ground (arith, take-append-drop m bs, length-take m bs)

-- What a read gives and what it leaves are the bytes ahead.
pub read_chunk_splits :
    (n : ℕ) (r : Reader) (got : Str) (after : Reader)
    → read_chunk n r ≡ ok (got, after)
    → (got ++ after.bytes ≡ r.bytes) × (length got ≤ n)
unfolding read_chunk
read_chunk_splits n r got after e = granted_splits n r.bytes r.grants got after e

take_nil : (m : ℕ) (bs : Str) → 1 ≤ m → take m bs ≡ [] → bs ≡ []
take_nil zero bs h e = absurd (omega arith)
take_nil (suc m) [] h e = refl
take_nil (suc m) (b ∷ bs) h e = cc

granted_nil :
    (n : ℕ) (bs : Str) (gs : List Grant) (after : Reader)
    → 1 ≤ n
    → granted n bs gs ≡ ok ([], after)
    → bs ≡ []
granted_nil n bs [] after h e = take_nil n bs h cc
granted_nil n bs (late ∷ gs) after h e = ground arith
granted_nil n bs (fails ∷ gs) after h e = ground arith
granted_nil n bs (gives k ∷ gs) after h e = take_nil (min n (suc k)) bs (omega arith) cc

-- Only at the end of the file does a read give nothing.
pub read_chunk_nil :
    (n : ℕ) (r : Reader) (after : Reader) → 1 ≤ n → read_chunk n r ≡ ok ([], after) → r.bytes ≡ []
unfolding read_chunk
read_chunk_nil n r after h e = granted_nil n r.bytes r.grants after h e

pub prefixed_splits :
    (got : Str) (m : Result CodecError (Str × Reader)) (out : Str) (after : Reader)
    → prefixed got m ≡ ok (out, after)
    → (rest : Str) × (m ≡ ok (rest, after)) × (out ≡ got ++ rest)
prefixed_splits got (ok (rest, last)) out after e = (rest, cc, cc)
prefixed_splits got (err x) out after e = absurd (ground arith)

exact_splits :
    (got : Str) (r1 : Reader) (more : Reader → Result CodecError (Str × Reader)) (out : Str)
    (after : Reader)
    → exact_after (got, r1) more ≡ ok (out, after)
    → (rest : Str) × (more r1 ≡ ok (rest, after)) × (out ≡ got ++ rest)
exact_splits [] r1 more out after e = absurd (ground arith)
exact_splits (b ∷ bs) r1 more out after e = prefixed_splits (b ∷ bs) (more r1) out after e

-- A read of `n` bytes takes these from the bytes ahead.
read_exact_loop_splits :
    (fuel n : ℕ) (r : Reader) (out : Str) (after : Reader)
    → read_exact_loop fuel n r ≡ ok (out, after)
    → (out ++ after.bytes ≡ r.bytes) × (length out ≡ n)
unfolding read_exact_loop
read_exact_loop_splits fuel zero r out after e = ground arith
read_exact_loop_splits zero (suc n) r out after e = absurd (ground arith)
read_exact_loop_splits (suc fuel) (suc n) r out after e =
    let more : ℕ → Reader → Result CodecError (Str × Reader) =
      λ m. read_exact_loop fuel (suc n - m) in
    let ((got, r1), c, x) =
      bind_ok (read_chunk (suc n) r) (λ got. exact_after got (more (length got.0))) (out, after)
        e in
    let (rest, m, o) = exact_splits got r1 (more (length got)) out after x in
    let (split, short) = read_chunk_splits (suc n) r got r1 c in
    let (ih, len) = read_exact_loop_splits fuel (suc n - length got) r1 rest after m in
    ground
      (arith, split, short, ih, len, o, length-append got rest, append_assoc got rest after.bytes)

pub read_exact_splits :
    (n : ℕ) (r : Reader) (out : Str) (after : Reader)
    → read_exact n r ≡ ok (out, after)
    → (out ++ after.bytes ≡ r.bytes) × (length out ≡ n)
unfolding read_exact
read_exact_splits n r out after e = read_exact_loop_splits n n r out after e

-- No read of the file fails or comes too late.
unfoldable pub all_give : List Grant → Bool
all_give [] = true
all_give (gives k ∷ gs) = all_give gs
all_give (_ ∷ gs) = false

unfoldable pub IsSteady : Reader → Type 0
IsSteady r = all_give r.grants ≡ true

granted_steady :
    (n : ℕ) (bs : Str) (gs : List Grant)
    → all_give gs ≡ true
    → (m : ℕ) × (after : Reader) × (granted n bs gs ≡ ok (take m bs, after))
      × (after.bytes ≡ drop m bs)
      × (all_give after.grants ≡ true)
      × (m ≤ n)
      × (min 1 n ≤ m)
unfolding all_give
granted_steady n bs [] h =
    (n, record { bytes = drop n bs; grants = [] }, refl, refl, refl, omega arith, omega arith)
granted_steady n bs (late ∷ gs) h = absurd (ground arith)
granted_steady n bs (fails ∷ gs) h = absurd (ground arith)
granted_steady n bs (gives k ∷ gs) h =
    let m = min n (suc k) in
    (m, record { bytes = drop m bs; grants = gs }, refl, refl, h, omega arith, omega arith)

-- A read from a steady file gives at least one byte, if it asks for one, and as many as it finds.
pub read_chunk-IsSteady :
    (n : ℕ) (r : Reader)
    → IsSteady r
    → (m : ℕ) × (after : Reader) × (read_chunk n r ≡ ok (take m r.bytes, after))
      × (after.bytes ≡ drop m r.bytes)
      × IsSteady after
      × (m ≤ n)
      × (min 1 n ≤ m)
unfolding read_chunk IsSteady
read_chunk-IsSteady n r h = granted_steady n r.bytes r.grants h

take_front : (m : ℕ) (a b : Str) → m ≤ length a → take m (a ++ b) ≡ take m a
take_front zero a b h = refl
take_front (suc m) [] b h = absurd (omega arith)
take_front (suc m) (x ∷ a) b h = ap (λ t. x ∷ t) (take_front m a b (omega arith))

drop_front : (m : ℕ) (a b : Str) → m ≤ length a → drop m (a ++ b) ≡ drop m a ++ b
drop_front zero a b h = refl
drop_front (suc m) [] b h = absurd (omega arith)
drop_front (suc m) (x ∷ a) b h = drop_front m a b (omega arith)

exact_after_some :
    (m : ℕ) (a : Str) (r : Reader) (more : Reader → Result CodecError (Str × Reader))
    (after : Reader)
    → 1 ≤ m
    → 1 ≤ length a
    → more r ≡ ok (drop m a, after)
    → exact_after (take m a, r) more ≡ ok (a, after)
exact_after_some zero a r more after h l e = absurd (omega arith)
exact_after_some (suc m) [] r more after h l e = absurd (omega arith)
exact_after_some (suc m) (x ∷ a) r more after h l e = rw e (rw (take-append-drop m a))

-- A read that asks for `a` gives a first part of it.
read_chunk_front :
    (a b : Str) (r : Reader)
    → IsSteady r
    → r.bytes ≡ a ++ b
    → (m : ℕ) × (after : Reader) × (read_chunk (length a) r ≡ ok (take m a, after))
      × (after.bytes ≡ drop m a ++ b)
      × IsSteady after
      × (m ≤ length a)
      × (min 1 (length a) ≤ m)
read_chunk_front a b r s e =
    let (m, r1, c, d, s1, hi, lo) = read_chunk-IsSteady (length a) r s in
    let front : take m r.bytes ≡ take m a = ap (take m) e ∙ take_front m a b hi in
    let given : ℕ → Str → Result CodecError (Str × Reader) = λ _ t. ok (t, r1) in
    (m, r1, c ∙ ap (given m) front, d ∙ ap (drop m) e ∙ drop_front m a b hi, s1, hi, lo)

-- After a first part, the rest completes `a`.
resumed :
    (m : ℕ) (a : Str) (r : Reader) (more : ℕ → Reader → Result CodecError (Str × Reader))
    (after : Reader)
    → 1 ≤ m
    → m ≤ length a
    → more (length (drop m a)) r ≡ ok (drop m a, after)
    → exact_after (take m a, r) (more (length a - length (take m a))) ≡ ok (a, after)
resumed m a r more after lo hi e =
    let len : length (drop m a) ≡ length a - length (take m a) =
      omega (arith, length-drop m a, length-take m a) in
    exact_after_some m a r (more (length a - length (take m a))) after lo (omega arith)
      (rw (← len) e)

-- What is read of a file that starts with `a` is `a`, however the reads split it.
read_exact_loop-IsSteady :
    (fuel : ℕ) (a b : Str) (r : Reader)
    → length a ≤ fuel
    → IsSteady r
    → r.bytes ≡ a ++ b
    → (after : Reader) × (read_exact_loop fuel (length a) r ≡ ok (a, after))
      × (after.bytes ≡ b)
      × IsSteady after
unfolding read_exact_loop
read_exact_loop-IsSteady fuel [] b r h s e = (r, refl, e, s)
read_exact_loop-IsSteady zero (x ∷ a) b r h s e = absurd (omega arith)
read_exact_loop-IsSteady (suc fuel) (x ∷ a) b r h s e =
    let (m, r1, c, d, s1, hi, lo) = read_chunk_front (x ∷ a) b r s e in
    let (after, ih, bytes, steady) =
      read_exact_loop-IsSteady fuel (drop m (x ∷ a)) b r1 (omega (arith, length-drop m (x ∷ a))) s1
        d in
    (
      after,
      rw c (resumed m (x ∷ a) r1 (read_exact_loop fuel) after (omega arith) hi ih),
      bytes,
      steady,
    )

pub read_exact-IsSteady :
    (a b : Str) (r : Reader)
    → IsSteady r
    → r.bytes ≡ a ++ b
    → (after : Reader) × (read_exact (length a) r ≡ ok (a, after))
      × (after.bytes ≡ b)
      × IsSteady after
unfolding read_exact
read_exact-IsSteady a b r s e = read_exact_loop-IsSteady (length a) a b r (omega arith) s e
