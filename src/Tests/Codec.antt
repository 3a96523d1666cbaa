-- ===== src/Tests/Codec.antt =====
-- The blob codec at concrete inputs: a compression that keeps the bytes, a cipher that adds a tag.
use backup_sync.Prelude.{
  ℕ, ◌≡◌, ◌≢◌, refl, ap, sym, true, false, none, some, [], ◌∷◌, ◌++◌, leb, if◌then◌else◌, Str,
  codes, length, drop, ok, err, ◌>>=◌, arith,
}
use backup_sync.Prelude.Int.{pos}
use backup_sync.Codec.Reader.{Reader, gives, fails, no_key}
use backup_sync.Codec.Reader.Steady.{IsSteady, all_give}
use backup_sync.Codec.Payload.{Zstd, Aead, encrypted_chunk}
use backup_sync.Codec.Payload.RoundTrip.{ZstdLaws, AeadLaws}
use backup_sync.Codec.Payload.Size.{ZstdRuns, AeadRuns}
use backup_sync.Codec.Encode.{enc_magic, sat_add}
use backup_sync.Codec.Blob.{
  BlobCodec, write_blob_from_file_to_writer, copy_blob_plaintext_to_writer, sha256_plaintext_blob,
}
use backup_sync.Codec.RoundTrip.Whole.{
  IsWithinLimits, IsUnambiguous, copy_blob_plaintext_to_writer-write_blob_from_file_to_writer,
}
use backup_sync.Codec.RoundTrip.Available.{blob_available}
use backup_sync.Codec.Agreement.{sha256_plaintext_blob-copy_blob_plaintext_to_writer}
use backup_sync.Codec.Refusals.{plain_file_with_magic}
use backup_sync.Codec.Ends.{copy_blob_plaintext_to_writer-Ends}
use backup_sync.Codec.Reader.{out_of_fuel}

abbrev pub keep : Zstd
keep = record {
  compress = λ level pt. some pt;
  decompress = λ ct room. if leb (length ct) room then some ct else none;
}

abbrev pub tag : Str
tag = 0 ∷ 0 ∷ 0 ∷ 0 ∷ 0 ∷ 0 ∷ 0 ∷ 0 ∷ 0 ∷ 0 ∷ 0 ∷ 0 ∷ 0 ∷ 0 ∷ 0 ∷ 0 ∷ []

abbrev pub tagged : Aead
tagged = record {
  seal = λ key nonce position last pt. some (tag ++ pt);
  unseal = λ key nonce position last ct. some (drop 16 ct);
}

keep_laws : ZstdLaws keep
keep_laws = record {
  decompress-compress = λ level pt ct room e h. let same : pt ≡ ct = cc in ground arith;
}

tagged_laws : AeadLaws tagged
tagged_laws = record {
  unseal-seal = λ key nonce position last pt ct e.
      let same : tag ++ pt ≡ ct = cc in ap (λ t. some (drop 16 t)) (sym same);
}

keep_runs : ZstdRuns keep
keep_runs = record { compress_runs = λ level pt h. (pt, refl, omega arith) }

tagged_runs : AeadRuns tagged
tagged_runs = record {
  seal_runs = λ key nonce position last pt p h. (tag ++ pt, refl, omega arith);
}

abbrev nonce : Str
nonce = 0 ∷ 1 ∷ 2 ∷ 3 ∷ 4 ∷ 5 ∷ 6 ∷ 7 ∷ 8 ∷ 9 ∷ 10 ∷ 11 ∷ 12 ∷ 13 ∷ 14 ∷ 15 ∷ 16 ∷ 17 ∷ 18 ∷ []

-- Encryption and compression are on, in chunks of two bytes.
abbrev both : BlobCodec
both = record {
  cipher = some (record { key = []; chunk_bytes = 2 });
  write_compression_enabled = true;
  write_compression_chunk_bytes = 2;
  write_compression_zstd_level = pos 3;
}

abbrev neither : BlobCodec
neither = record {
  cipher = none;
  write_compression_enabled = false;
  write_compression_chunk_bytes = 2;
  write_compression_zstd_level = pos 3;
}

-- Three bytes, of which the first read gives one.
abbrev source : Reader
source = record { bytes = 7 ∷ 8 ∷ 9 ∷ []; grants = gives 0 ∷ [] }

-- In two chunks, of one byte and of two.
abbrev stored : Str
stored =
    codes "BSYNCENC"
    ++ (1 ∷ 2 ∷ nonce)
    ++ (0 ∷ 0 ∷ 0 ∷ 21 ∷ tag ++ (0 ∷ 0 ∷ 0 ∷ 1 ∷ 7 ∷ []))
    ++ (128 ∷ 0 ∷ 0 ∷ 22 ∷ tag ++ (0 ∷ 0 ∷ 0 ∷ 2 ∷ 8 ∷ 9 ∷ []))

abbrev stored_file : Reader
stored_file = record { bytes = stored; grants = gives 2 ∷ gives 0 ∷ gives 9 ∷ [] }

steady : IsSteady stored_file
unfolding IsSteady all_give
steady = refl

source-IsSteady : IsSteady source
unfolding IsSteady all_give
source-IsSteady = refl

-- A file that starts as an encrypted blob does.
abbrev alike : Reader
alike = record { bytes = enc_magic ++ (7 ∷ []); grants = [] }

alike-IsSteady : IsSteady alike
unfolding IsSteady all_give
alike-IsSteady = refl

-- A file whose third read fails.
abbrev broken : Reader
broken = record { bytes = stored; grants = gives 2 ∷ gives 0 ∷ fails ∷ [] }

small : IsWithinLimits both
unfolding IsWithinLimits
small = (omega arith, omega arith)

clear : IsUnambiguous both source.bytes
unfolding IsUnambiguous
clear = tt

written : write_blob_from_file_to_writer keep tagged both nonce (ok source) [] ≡ ok (stored, 3)
unfolding write_blob_from_file_to_writer encrypted_chunk
written = refl

copy_blob_plaintext_to_writer-write_blob_from_file_to_writer_example :
    copy_blob_plaintext_to_writer keep tagged both.cipher (ok stored_file) [] ≡ ok (source.bytes, 3)
copy_blob_plaintext_to_writer-write_blob_from_file_to_writer_example =
    copy_blob_plaintext_to_writer-write_blob_from_file_to_writer keep keep_laws tagged tagged_laws
      both nonce source stored_file stored 3 refl small clear written refl steady

blob_available_example :
    (blob : Str) × (n : ℕ) × (write_blob_from_file_to_writer keep tagged both nonce (ok source) []
      ≡ ok (blob, n))
    × ((r : Reader)
        → r.bytes ≡ blob
        → IsSteady r
        → copy_blob_plaintext_to_writer keep tagged both.cipher (ok r) [] ≡ ok (source.bytes, n))
blob_available_example =
    blob_available keep keep_runs tagged tagged_runs keep_laws tagged_laws both nonce source refl
      small clear (omega arith) source-IsSteady

sha256_plaintext_blob-copy_blob_plaintext_to_writer_example :
    sha256_plaintext_blob keep tagged (λ s. s) both.cipher (ok broken) ≡ (do
      (plaintext, n) ← copy_blob_plaintext_to_writer keep tagged both.cipher (ok broken) []
      ok plaintext)
sha256_plaintext_blob-copy_blob_plaintext_to_writer_example =
    sha256_plaintext_blob-copy_blob_plaintext_to_writer keep tagged (λ s. s) both.cipher (ok broken)

plain_file_with_magic_example :
    (write_blob_from_file_to_writer keep tagged neither nonce (ok alike) []
      ≡ ok (alike.bytes, sat_add 0 (length alike.bytes)))
    × ((r : Reader)
        → r.bytes ≡ alike.bytes
        → IsSteady r
        → copy_blob_plaintext_to_writer keep tagged neither.cipher (ok r) [] ≡ err no_key)
plain_file_with_magic_example =
    plain_file_with_magic keep tagged neither nonce alike (7 ∷ []) refl refl refl alike-IsSteady

copy_blob_plaintext_to_writer-Ends_example :
    copy_blob_plaintext_to_writer keep tagged both.cipher (ok broken) [] ≢ err out_of_fuel
copy_blob_plaintext_to_writer-Ends_example =
    copy_blob_plaintext_to_writer-Ends keep tagged both.cipher broken []
