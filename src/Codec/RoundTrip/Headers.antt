-- ===== src/Codec/RoundTrip/Headers.antt =====
-- The headers of encoded blobs in crates/core/src/encryption/blobs.rs.
use backup_sync.Prelude.{
  ◌≡◌, refl, sym, ap, ◌∙◌, ◌≢◌, false, Bool-cases, inl, inr, Option, none, some, [], ◌∷◌, ◌++◌,
  ◌==◌, not, ◌&&◌, Str, str_eq, str_eq→eq, length, take, drop, Result, ok,
}
use backup_sync.Prelude.Int.{ℤ}
use backup_sync.Codec.Reader.{CodecError, Reader, read_exact}
use backup_sync.Codec.Reader.Steady.{IsSteady, read_exact-IsSteady}
use backup_sync.Codec.Reader.Probe.{probe-IsSteady}
use backup_sync.Codec.Payload.{alg_of, alg_encrypted, alg_encrypted_zstd}
use backup_sync.Codec.Encode.{
  enc_magic, comp_magic, enc_version, comp_version, comp_alg_zstd_chunked,
}
use backup_sync.Codec.Decode.{
  ProbedMagic, encrypted, compressed, plain, probed, probe_magic_prefix, read_encrypted_header,
  read_compressed_header,
}

-- The probe leaves the file behind the bytes that it tests.
pub probe_first :
    (r : Reader)
    → IsSteady r
    → (after : Reader) × (probe_magic_prefix r ≡ ok (probed (take 8 r.bytes), after))
      × (after.bytes ≡ drop 8 r.bytes)
      × IsSteady after
unfolding probe_magic_prefix
probe_first r s = let (after, e, left, s1) = probe-IsSteady r s in (after, rw e refl, left, s1)

pub probe_encrypted :
    (r : Reader) (rest : Str)
    → IsSteady r
    → r.bytes ≡ enc_magic ++ rest
    → (after : Reader) × (probe_magic_prefix r ≡ ok ((encrypted, []), after))
      × (after.bytes ≡ rest)
      × IsSteady after
unfolding probed
probe_encrypted r rest s e =
    let (after, p, left, s1) = probe_first r s in
    let given : ProbedMagic × Str → Result CodecError ((ProbedMagic × Str) × Reader) =
      λ t. ok (t, after) in
    (after, p ∙ ap (λ t. given (probed (take 8 t))) e, left ∙ ap (drop 8) e, s1)

pub probe_compressed :
    (r : Reader) (rest : Str)
    → IsSteady r
    → r.bytes ≡ comp_magic ++ rest
    → (after : Reader) × (probe_magic_prefix r ≡ ok ((compressed, []), after))
      × (after.bytes ≡ rest)
      × IsSteady after
unfolding probed
probe_compressed r rest s e =
    let (after, p, left, s1) = probe_first r s in
    let given : ProbedMagic × Str → Result CodecError ((ProbedMagic × Str) × Reader) =
      λ t. ok (t, after) in
    (after, p ∙ ap (λ t. given (probed (take 8 t))) e, left ∙ ap (drop 8) e, s1)

-- Eight bytes that are no magic, or fewer, are the file's own.
pub probed_plain : (s : Str) → s ≢ enc_magic → s ≢ comp_magic → probed s ≡ (plain, s)
unfolding probed
probed_plain s h k = elim (Bool-cases (length s == 8)) [
  | inr f ↦ rw f refl
  | inl t ↦ elim (Bool-cases (str_eq s enc_magic)) [
    | inl a ↦ absurd (h (str_eq→eq s enc_magic a))
    | inr a ↦ elim (Bool-cases (str_eq s comp_magic)) [
      | inl b ↦ absurd (k (str_eq→eq s comp_magic b))
      | inr b ↦ rw (t, a, b) refl
    ]
  ]
]

accepted :
    (level : Option ℤ)
    → (not (alg_of level == alg_encrypted) && not (alg_of level == alg_encrypted_zstd)) ≡ false
accepted none = refl
accepted (some level) = refl

pub read_encrypted_header_back :
    (r : Reader) (level : Option ℤ) (nonce rest : Str)
    → length nonce ≡ 19
    → IsSteady r
    → r.bytes ≡ (enc_version ∷ alg_of level ∷ []) ++ (nonce ++ rest)
    → (after : Reader) × (read_encrypted_header r
        ≡ ok (record { alg = alg_of level; nonce = nonce }, after))
      × (after.bytes ≡ rest)
      × IsSteady after
unfolding read_encrypted_header
read_encrypted_header_back r level nonce rest size s e =
    let (r1, c, left, s1) =
      read_exact-IsSteady (enc_version ∷ alg_of level ∷ []) (nonce ++ rest) r s e in
    let (r2, d, left2, s2) = read_exact-IsSteady nonce rest r1 s1 left in
    let sized : read_exact 19 r1 ≡ ok (nonce, r2) = ap (λ k. read_exact k r1) (sym size) ∙ d in
    (r2, rw c (rw (accepted level) (rw sized refl)), left2, s2)

pub read_compressed_header_back :
    (r : Reader) (rest : Str)
    → IsSteady r
    → r.bytes ≡ (comp_version ∷ comp_alg_zstd_chunked ∷ []) ++ rest
    → (after : Reader) × (read_compressed_header r ≡ ok (comp_alg_zstd_chunked, after))
      × (after.bytes ≡ rest)
      × IsSteady after
unfolding read_compressed_header
read_compressed_header_back r rest s e =
    let (r1, c, left, s1) =
      read_exact-IsSteady (comp_version ∷ comp_alg_zstd_chunked ∷ []) rest r s e in
    (r1, rw c refl, left, s1)
