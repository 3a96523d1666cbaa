-- ===== src/Codec/Reader/Probe.antt =====
-- `probe_magic_prefix` of crates/core/src/encryption/blobs.rs: the reads of its loop.
use backup_sync.Prelude.{
  ℕ, zero, suc, ◌+◌, ◌-◌, ◌≤◌, ◌≡◌, refl, sym, ap, ◌∙◌, [], ◌∷◌, ◌++◌, Str, length, take, drop,
  length-take, Result, ok, arith,
}
use backup_sync.Codec.Reader.{CodecError, Reader, probe_loop, probe_after, prefixed}
use backup_sync.Codec.Reader.Steady.{IsSteady, read_chunk-IsSteady}

nothing_ahead : (n : ℕ) → (take {A = ℕ} n [] ≡ []) × (drop {A = ℕ} n [] ≡ [])
nothing_ahead zero = (refl, refl)
nothing_ahead (suc n) = (refl, refl)

-- To take `n` is to take `m` first, and of the rest what is missing.
take_twice :
    (m k n : ℕ) (bs : Str)
    → length (take m bs) + k ≡ n
    → (take m bs ++ take k (drop m bs) ≡ take n bs) × (drop k (drop m bs) ≡ drop n bs)
take_twice zero k n bs h =
    let same : k ≡ n = omega (arith, h) in (ap (λ i. take i bs) same, ap (λ i. drop i bs) same)
take_twice (suc m) k n [] h = grind (arith, nothing_ahead n, nothing_ahead k)
take_twice (suc m) k zero (b ∷ bs) h = absurd (omega (arith, h))
take_twice (suc m) k (suc n) (b ∷ bs) h =
    let (t, d) = take_twice m k n bs (omega (arith, h)) in (ap (λ s. b ∷ s) t, d)

-- What the loop gives from here on, for `n` bytes: these, or all there are.
abbrev IsProbed : ℕ → Str → Result CodecError (Str × Reader) → Type 0
IsProbed n bs m =
    (after : Reader) × (m ≡ ok (take n bs, after)) × (after.bytes ≡ drop n bs) × IsSteady after

-- After a first read of at least one byte, unless the file ends.
IsProbed-rest :
    (m k n : ℕ) (bs : Str) (r1 : Reader) (more : Reader → Result CodecError (Str × Reader))
    → 1 ≤ m
    → length (take m bs) + k ≡ n
    → r1.bytes ≡ drop m bs
    → IsSteady r1
    → (1 ≤ length (take m bs) → IsProbed k r1.bytes (more r1))
    → IsProbed n bs (probe_after (take m bs, r1) more)
IsProbed-rest zero k n bs r1 more lo h d s ih = absurd (omega arith)
IsProbed-rest (suc m) k n [] r1 more lo h d s ih =
    let (t, u) = nothing_ahead n in (r1, rw t, d ∙ sym u, s)
IsProbed-rest (suc m) k n (b ∷ bs) r1 more lo h d s ih =
    let (t, u) = take_twice (suc m) k n (b ∷ bs) h in
    let all : b ∷ take m bs ++ take k r1.bytes ≡ take n (b ∷ bs) = rw d t in
    let (after, e, rest, s1) = ih (omega arith) in
    (after, rw e (ap (λ t. prefixed [] (ok (t, after))) all), rest ∙ ap (drop k) d ∙ u, s1)

-- The loop gives the first `n` bytes, or all there are.
probe_loop_steady :
    (fuel n : ℕ) (r : Reader) → n ≤ fuel → IsSteady r → IsProbed n r.bytes (probe_loop fuel n r)
unfolding probe_loop
probe_loop_steady fuel zero r h s = (r, refl, refl, s)
probe_loop_steady zero (suc n) r h s = absurd (omega arith)
probe_loop_steady (suc fuel) (suc n) r h s =
    let (m, r1, c, d, s1, hi, lo) = read_chunk-IsSteady (suc n) r s in
    let k : ℕ = suc n - length (take m r.bytes) in
    let gap : length (take m r.bytes) + k ≡ suc n = omega (arith, length-take m r.bytes) in
    rw c (
      IsProbed-rest m k (suc n) r.bytes r1 (probe_loop fuel k) (omega arith) gap d s1
        (λ some. probe_loop_steady fuel k r1 (omega (arith, gap)) s1))

pub probe-IsSteady :
    (r : Reader)
    → IsSteady r
    → (after : Reader) × (probe_loop 8 8 r ≡ ok (take 8 r.bytes, after))
      × (after.bytes ≡ drop 8 r.bytes)
      × IsSteady after
probe-IsSteady r s = probe_loop_steady 8 8 r (omega arith) s
