-- ===== src/Codec/Payload/RoundTrip.antt =====
-- Chunks encoded and decoded, crates/core/src/encryption/blobs.rs.
use backup_sync.Prelude.{
  ℕ, ◌%◌, ◌^◌, ◌≤◌, ◌≡◌, refl, Bool, false, Option, none, some, [], ◌∷◌, ◌++◌, ltb, Str, length,
  take, drop, ok, bind_ok, err-ne-ok, arith, Bool-cases, inl, inr,
}
use backup_sync.Prelude.Int.{ℤ}
use backup_sync.Codec.Reader.{CodecError, too_large, zstd_failed, cipher_failed}
use backup_sync.Codec.Frame.{to_be_bytes, from_be_bytes}
use backup_sync.Codec.Frame.RoundTrip.{from_be_bytes-to_be_bytes}
use backup_sync.Codec.Payload.{
  Zstd, Aead, or_failed, compressed_text, build_zstd_payload, unpacked, decompress_zstd_payload,
  encrypted_chunk, decrypted_chunk, max_decompressed_chunk_bytes, alg_of,
}

-- What is compressed decompresses to itself, given room for it.
pub record ZstdLaws (zstd : Zstd) : Type 0 where
  pub decompress-compress :
      (level : ℤ) (pt ct : Str) (room : ℕ)
      → zstd.compress level pt ≡ some ct
      → length pt ≤ room
      → zstd.decompress ct room ≡ some pt

-- What is sealed opens, with the same key, nonce, position and mark.
pub record AeadLaws (aead : Aead) : Type 0 where
  pub unseal-seal :
      (key nonce : Str) (position : ℕ) (last : Bool) (pt ct : Str)
      → aead.seal key nonce position last pt ≡ some ct
      → aead.unseal key nonce position last ct ≡ some pt

pub or_failed-some : (x : CodecError) (o : Option Str) (s : Str) → or_failed x o ≡ ok s → o ≡ some s
or_failed-some x none s e = absurd (ground arith)
or_failed-some x (some t) s e = cc

take_header : (n : ℕ) (s : Str) → take 4 (to_be_bytes n ++ s) ≡ to_be_bytes n
unfolding to_be_bytes
take_header n s = refl

drop_header : (n : ℕ) (s : Str) → drop 4 (to_be_bytes n ++ s) ≡ s
unfolding to_be_bytes
drop_header n s = refl

header_fits : (n : ℕ) (s : Str) → ltb (length (to_be_bytes n ++ s)) 4 ≡ false
unfolding to_be_bytes
header_fits n s = ground arith

module _ (zstd : Zstd) (laws : ZstdLaws zstd) where
  unpacked-compressed_text :
      (level : ℤ) (pt ct : Str)
      → compressed_text zstd level pt ≡ some ct
      → unpacked zstd (length pt) ct ≡ ok pt
  unpacked-compressed_text level [] [] e = refl
  unpacked-compressed_text level [] (c ∷ ct) e = absurd (ground arith)
  unpacked-compressed_text level (b ∷ bs) [] e =
      rw (laws.decompress-compress level (b ∷ bs) [] (length (b ∷ bs)) e (omega arith))
        (ground arith)
  unpacked-compressed_text level (b ∷ bs) (c ∷ ct) e =
      rw (laws.decompress-compress level (b ∷ bs) (c ∷ ct) (length (b ∷ bs)) e (omega arith))
        (ground arith)

  read_payload :
      (n : ℕ) (ct pt : Str)
      → n ≤ max_decompressed_chunk_bytes
      → unpacked zstd n ct ≡ ok pt
      → decompress_zstd_payload zstd (to_be_bytes n ++ ct) ≡ ok pt
  unfolding decompress_zstd_payload
  read_payload n ct pt h e =
      let same : from_be_bytes (to_be_bytes n) ≡ n = from_be_bytes-to_be_bytes n (omega arith) in
      let small : ltb max_decompressed_chunk_bytes n ≡ false = ground arith in
      rw (header_fits n ct, take_header n ct, drop_header n ct, same, small) e

  -- The parts of a payload that was built.
  built_payload :
      (pt : Str) (level : ℤ) (payload : Str)
      → build_zstd_payload zstd pt level ≡ ok payload
      → (ct : Str) × (compressed_text zstd level pt ≡ some ct)
        × (payload ≡ to_be_bytes (length pt % 2 ^ 32) ++ ct)
  unfolding build_zstd_payload
  built_payload pt level payload e = elim (Bool-cases (ltb 0xFFFF_FFFF (length pt))) [
    | inl t ↦
        absurd (err-ne-ok {m = build_zstd_payload zstd pt level} {x = too_large} (rw t refl) e)
    | inr f ↦
        let (ct, c, w) =
          bind_ok (or_failed zstd_failed (compressed_text zstd level pt)) _ payload (rw f at e) in
        (ct, or_failed-some zstd_failed (compressed_text zstd level pt) ct c, cc)
  ]

  -- A chunk of at most 8 MiB decompresses to itself.
  pub decompress-build_zstd_payload :
      (pt : Str) (level : ℤ) (payload : Str)
      → length pt ≤ max_decompressed_chunk_bytes
      → build_zstd_payload zstd pt level ≡ ok payload
      → decompress_zstd_payload zstd payload ≡ ok pt
  decompress-build_zstd_payload pt level payload h e =
      let (ct, c, same) = built_payload pt level payload e in
      let low : length pt % 2 ^ 32 ≡ length pt = omega arith in
      rw (same, low) (read_payload (length pt) ct pt h (unpacked-compressed_text level pt ct c))

  module _ (aead : Aead) (aead_laws : AeadLaws aead) where
    -- A chunk decrypts to itself, and if it was compressed and has at most 8 MiB, decompresses too.
    pub decrypted_chunk-encrypted_chunk :
        (key nonce : Str) (level : Option ℤ) (position : ℕ) (last : Bool) (pt ct : Str)
        → length pt ≤ max_decompressed_chunk_bytes
        → encrypted_chunk zstd aead key nonce level position last pt ≡ ok ct
        → decrypted_chunk zstd aead key nonce (alg_of level) position last ct ≡ ok pt
    unfolding encrypted_chunk decrypted_chunk
    decrypted_chunk-encrypted_chunk key nonce none position last pt ct h e =
        let sealed = or_failed-some cipher_failed _ ct e in
        rw (aead_laws.unseal-seal key nonce position last pt ct sealed) refl
    decrypted_chunk-encrypted_chunk key nonce (some level) position last pt ct h e =
        let (payload, b, e1) = bind_ok (build_zstd_payload zstd pt level) _ ct e in
        let sealed = or_failed-some cipher_failed _ ct e1 in
        rw (aead_laws.unseal-seal key nonce position last payload ct sealed)
          (decompress-build_zstd_payload pt level payload h b)
