-- ===== src/Versioned/Restore/Version/Decodes.antt =====
-- The blobs that `restore_version` (restore.rs) reads, in a store that can be restored from.
use mathlib.Core.Path.{subst}
use backup_sync.Prelude.{
  ℕ, ◌≡◌, sym, ap, ◌∙◌, true, [], arith, Str, str_eq_refl, Result, ok, err, bind_ok, ok_bind,
}
use backup_sync.Prelude.Run.{Runs}
use backup_sync.Map.{get, contains_key, str_key, pair_key, get-In, get-contains_key}
use backup_sync.Codec.Reader.{CodecError, Reader}
use backup_sync.Codec.Blob.{BlobCodec, copy_blob_plaintext_to_writer}
use backup_sync.Codec.Agreement.{sha256_plaintext_blob-copy_blob_plaintext_to_writer}
use backup_sync.Codec.Digest.{as_store_error, codec_hashing}
use backup_sync.Versioned.Model.{ManifestEntry}
use backup_sync.Versioned.Disk.{Disk, Hashing, blob_path, is_lower_hex_sha256}
use backup_sync.Versioned.Commit.Store.{StoreOk}
use backup_sync.Versioned.Restore.Plan.Planned.{plan_of}
use backup_sync.Versioned.Restore.Tree.{TreeIo}
use backup_sync.Versioned.Restore.Build.{BlobReads, opened, decoded, checked_plaintext}

-- A blob that is opened gives its bytes.
abbrev pub ReadsAll : BlobReads → Type 0
ReadsAll reads =
    (path : Str × Str) (blob : Str)
    → reads.open_blob path blob ≡ ok (record { bytes = blob; grants = [] })

as_store_error-ok :
    (r : Result CodecError Str) (digest : Str) → as_store_error r ≡ ok digest → r ≡ ok digest
as_store_error-ok (ok x) digest h = ground arith
as_store_error-ok (err e) digest h = cc

module _ (reads : BlobReads) (codec : BlobCodec) where
  -- The digests of the store are those of its codec.
  abbrev pub digests_of : Hashing
  digests_of = codec_hashing reads.zstd reads.aead reads.sha256_hex codec

  blob_path-hex :
      (hash : Str) → is_lower_hex_sha256 hash ≡ true → (blob_path digests_of hash).1 ≡ hash
  unfolding blob_path
  blob_path-hex hash h = rw h

  -- A blob of a digest decodes to content of that digest.
  decodes :
      (blob hash : Str)
      → digests_of.sha256_plaintext_blob blob ≡ ok hash
      → (content : Str) × ((n : ℕ) × ((copy_blob_plaintext_to_writer reads.zstd reads.aead
                codec.cipher
                (ok (record { bytes = blob; grants = [] }))
                []
              ≡ ok (content, n))
            × (reads.sha256_hex content ≡ hash)))
  unfolding codec_hashing
  decodes blob hash h =
      let r : Result CodecError Reader = ok (record { bytes = blob; grants = [] }) in
      let digest = as_store_error-ok _ hash h in
      let both =
        sym (
          sha256_plaintext_blob-copy_blob_plaintext_to_writer reads.zstd reads.aead reads.sha256_hex
            codec.cipher r)
        ∙ digest in
      let ((content, n), copy, same) =
        bind_ok (copy_blob_plaintext_to_writer reads.zstd reads.aead codec.cipher r []) _ hash
          both in
      (content, (n, (copy, ground (arith, same))))

  module _ (io : TreeIo) (store : Disk) (all : ReadsAll reads) where
    pub checked_plaintext-Runs :
        (entry : ManifestEntry) (hash : Str)
        → StoreOk digests_of store
        → is_lower_hex_sha256 hash ≡ true
        → contains_key (blob_path digests_of hash) store.blobs ≡ true
        → Runs (checked_plaintext io reads store codec.cipher (plan_of digests_of entry hash))
    unfolding checked_plaintext
    checked_plaintext-Runs entry hash s hex there =
        let path = blob_path digests_of hash in
        let (blob, at) = get-contains_key path store.blobs there in
        let named = s.blobs path blob (get-In path blob store.blobs at) in
        let (content, (n, (copy, right))) = decodes blob hash (
          subst (λ x. digests_of.sha256_plaintext_blob blob ≡ ok x) (blob_path-hex hash hex)
            named) in
        let read : opened io reads store codec.cipher path (get path store.blobs)
            ≡ ok (record { bytes = blob; grants = [] }) =
          ap (opened io reads store codec.cipher path) at ∙ all path blob in
        let decoded_is : decoded io reads store codec.cipher (
              copy_blob_plaintext_to_writer reads.zstd reads.aead codec.cipher
                (opened io reads store codec.cipher path (get path store.blobs)) [])
            ≡ ok content =
          ap
            (λ r.
              decoded io reads store codec.cipher
                (copy_blob_plaintext_to_writer reads.zstd reads.aead codec.cipher r []))
            read
          ∙ ap (decoded io reads store codec.cipher) copy in
        (content, ok_bind _ _ content (ok content) decoded_is (rw right (rw (str_eq_refl hash))))
