-- ===== src/Versioned/Blobs.antt =====
-- Stage 2 of crates/core/src/backup/versioned/store.rs: the blobs that a candidate manifest needs
-- and the store does not have (`write_blob`, `write_blob_once`, `write_missing_blobs_for_snapshot`).
pub mod Written
pub mod Entries
pub mod Backed
use backup_sync.Prelude.{
  ℕ, zero, suc, ◌+◌, ◌≡◌, refl, Bool, true, false, not, ◌&&◌, Option, none, some, List, [], ◌∷◌,
  ◌++◌, ltb, if◌then◌else◌, Str, codes, str_eq, length, max, Result, ok, err, bail_if, filter, map,
}
use backup_sync.Map.{Map, get, insert, remove, contains_key, str_key, pair_key}
use backup_sync.Versioned.Model.{
  ManifestEntry, Manifest, ReadFailure, ReadFailurePhase, blob_write, is_file,
}
use backup_sync.Versioned.Disk.{
  Disk, StoreError, Hashing, blob_path, blob_exists, is_lower_hex_sha256, invalid_hash,
  digest_mismatch, timed_out, io_failed,
}
use backup_sync.Versioned.Exec.{Exec, pure, lift, effect, ◌>>=◌, ◌>>◌}
use backup_sync.Versioned.Retry.{last_error}
use backup_sync.Versioned.Scan.Snapshot.{entries_of}

-- What the machine does while a blob is written: by source path and attempt.
pub record BlobIo : Type 0 where
  -- The bytes that the codec encodes the source file to.
  pub encode : Str → ℕ → Result StoreError Str
  pub late : Str → ℕ → Bool
  -- The temporary file is not synced, or not renamed into place.
  pub persist_refused : Str → ℕ → Bool
  -- The directory is not synced; the file is in place by then.
  pub sync_refused : Str → ℕ → Bool
  pub mkdir_refused : Str → Bool
  -- Seconds since the first attempt.
  pub elapsed : Str → ℕ → ℕ
  -- `format!("{error:#}")`
  pub render : StoreError → Str

-- `retry_with_backoff` over an operation that changes the disk.
module _ {A : Type 0} (timeout_seconds : ℕ) (elapsed : ℕ → ℕ) (op : ℕ → Exec A) where
  abbrev pub next_attempt : ℕ → (StoreError → Exec (A × ℕ)) → Result StoreError A → Exec (A × ℕ)
  next_attempt attempt_idx retry (ok v) d = (ok (v, attempt_idx + 1), d)
  next_attempt attempt_idx retry (err e) d = retry e d

  unfoldable pub attempt_exec : ℕ → ℕ → Option StoreError → Exec (A × ℕ)
  attempt_exec zero attempt_idx last d = (err (last_error last), d)
  attempt_exec (suc rounds) attempt_idx last d =
      let retry = λ (e : StoreError). attempt_exec rounds (attempt_idx + 1) (some e) in
      if ltb 0 timeout_seconds && ltb timeout_seconds (elapsed attempt_idx)
      then (err (timed_out (max attempt_idx 1)), d)
      else next_attempt attempt_idx retry (op attempt_idx d).0 (op attempt_idx d).1

-- `BlobWritePassResult`, beside the manifest it amends and the disk.
pub record Pass : Type 0 where
  pub snapshot : Manifest
  pub blobs_written : ℕ
  pub bytes_written : ℕ
  pub had_read_failures : Bool
  pub disk : Disk

abbrev pub blob_failure : Str → ℕ → Str → ReadFailure
blob_failure rel_path attempts message = record {
  rel_path = rel_path;
  phase = blob_write;
  attempts = attempts;
  message = message;
}

-- The failure is recorded and the entries replaced.
abbrev pub fail_entry : ReadFailure → Map Str ManifestEntry → Pass → Pass
fail_entry failure entries s = record s {
  snapshot = record s.snapshot {
    read_failures = s.snapshot.read_failures ++ failure ∷ [];
    entries = entries;
  };
  had_read_failures = true;
}

-- The previous entry for the path, or none.
abbrev pub put_back : Str → Option ManifestEntry → Map Str ManifestEntry → Map Str ManifestEntry
put_back rel_path none entries = remove rel_path entries
put_back rel_path (some prev_entry) entries = insert rel_path prev_entry entries

module _ (hashing : Hashing) (io : BlobIo) (timeout_seconds retries : ℕ) where
  unfoldable pub validate_expected_blob_hash : Str → Result StoreError (Unit {0})
  validate_expected_blob_hash expected =
      bail_if (not (is_lower_hex_sha256 expected && str_eq (blob_path hashing expected).1 expected))
        (invalid_hash expected)

  -- The temporary file is read back, and its content compared.
  abbrev pub checked_digest : Str → Str → Result StoreError Str → Result StoreError Str
  checked_digest expected encoded (err e) = err e
  checked_digest expected encoded (ok actual) =
      if str_eq actual expected then ok encoded else err (digest_mismatch expected actual)

  abbrev pub verify_encoded : Str → Result StoreError Str → Result StoreError Str
  verify_encoded expected (err e) = err e
  verify_encoded expected (ok encoded) =
      checked_digest expected encoded (hashing.sha256_plaintext_blob encoded)

  unfoldable pub write_blob_once : Str → Str → ℕ → Exec ℕ
  unfolding validate_expected_blob_hash
  write_blob_once src expected i = do
    lift (validate_expected_blob_hash expected)
    lift (bail_if (io.late src i) (timed_out timeout_seconds))
    encoded ← lift (verify_encoded expected (io.encode src i))
    effect (io.persist_refused src i) (io_failed src)
        (λ d. record d { blobs = insert (blob_path hashing expected) encoded d.blobs })
    lift (bail_if (io.sync_refused src i) (io_failed src))
    pure (length encoded)

  unfoldable pub write_blob : Str → Str → Exec (ℕ × ℕ)
  unfolding write_blob_once attempt_exec
  write_blob src expected = do
    lift (validate_expected_blob_hash expected)
    lift (bail_if (io.mkdir_refused expected) (io_failed expected))
    (written, _) ←
        attempt_exec timeout_seconds (io.elapsed src) (write_blob_once src expected) (retries + 1) 0
          none
    pure (1, written)

  abbrev pub written_blob : Option Manifest → Str → Pass → Result StoreError (ℕ × ℕ) → Disk → Pass
  written_blob prev rel_path s (ok (count, bytes)) d = record s {
    blobs_written = s.blobs_written + count;
    bytes_written = s.bytes_written + bytes;
    disk = d;
  }
  written_blob prev rel_path s (err error) d =
      fail_entry (blob_failure rel_path (retries + 1) (io.render error))
        (put_back rel_path (get rel_path (entries_of prev)) s.snapshot.entries)
        (record s { disk = d })

  abbrev pub write_hash : Option Manifest → Str → Pass → Option Str → Pass
  write_hash prev rel_path s none =
      fail_entry (blob_failure rel_path 1 (codes "missing sha256 for file entry"))
        (remove rel_path s.snapshot.entries) s
  write_hash prev rel_path s (some hash) =
      if blob_exists hashing s.disk hash
      then s
      else written_blob prev rel_path s (write_blob rel_path hash s.disk).0
          (write_blob rel_path hash s.disk).1

  abbrev pub write_entry : Option Manifest → Str → Pass → Option ManifestEntry → Pass
  write_entry prev rel_path s none = s
  write_entry prev rel_path s (some entry) = write_hash prev rel_path s entry.sha256

  unfoldable pub write_missing_blobs : Option Manifest → List Str → Pass → Pass
  unfolding write_blob
  write_missing_blobs prev [] s = s
  write_missing_blobs prev (rel_path ∷ paths) s =
      write_missing_blobs prev paths (write_entry prev rel_path s (get rel_path s.snapshot.entries))

  abbrev pub file_rel_paths : Map Str ManifestEntry → List Str
  file_rel_paths [] = []
  file_rel_paths ((k, e) ∷ m) =
      let rest = file_rel_paths m in if is_file e.kind then e.rel_path ∷ rest else rest

  unfoldable pub write_missing_blobs_for_snapshot : Option Manifest → Manifest → Disk → Pass
  unfolding write_missing_blobs
  write_missing_blobs_for_snapshot prev snapshot d =
      write_missing_blobs prev (file_rel_paths snapshot.entries) (record {
        snapshot = snapshot;
        blobs_written = 0;
        bytes_written = 0;
        had_read_failures = false;
        disk = d;
      })
