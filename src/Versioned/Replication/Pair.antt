-- ===== src/Versioned/Replication/Pair.antt =====
-- crates/core/src/backup/versioned/replication.rs: one source of a store replicated.
pub mod Published
pub mod Kept
pub mod Safe
pub mod Mirror
use backup_sync.Prelude.{
  ℕ, zero, suc, ◌+◌, ◌-◌, Bool, true, false, not, ◌&&◌, Option, none, some, List, [], ◌∷◌, ◌==◌,
  if◌then◌else◌, Str, str_eq, length, any, map, Result, ok, err,
}
use backup_sync.Prelude.Run.{Run, pure, lift, gets, ◌>>=◌, ◌>>◌}
use backup_sync.Map.{Map, get, insert, remove, str_key, pair_key}
use backup_sync.Codec.Encode.{sat_add}
use backup_sync.Versioned.Model.{VersionInfo, VersionIndex, Manifest}
use backup_sync.Versioned.Validation.{validate_version_index, IndexError}
use backup_sync.Versioned.Disk.{Hashing, blob_path}
use backup_sync.Versioned.Replication.{
  ReplicationError, copy_failed, unreadable, bad_json, removal_failed, unsafe_index, not_available,
  FileOnDisk, absent, irregular, file, RegularFileState, missing, regular, SourceFiles, StoreFiles,
  or_absent, regular_file_state, read_file, or_bad, BlobReplicationPlan, VersionReplicationPlan,
  manifest_at, blob_at, require_plaintext_hash, manifest_needs_copy, blob_needs_copy,
  build_replication_plans, validate_replication_plans,
}
use backup_sync.Versioned.Replication.Replica.{
  ReplicaIo, MirrorConfig, PairCounters, Replica, Rep, copied_file, copy_file_atomic, put_manifest,
  put_blob, put_report, put_index, counted_manifest, counted_blob, counted_bytes, unlisted,
  is_regular_file, no_counters, forget,
}

module _ (io : ReplicaIo) (src : SourceFiles) (src_blobs : Map (Str × Str) FileOnDisk) where
  abbrev pub src_manifest : Str → FileOnDisk
  src_manifest id = manifest_at src id

  abbrev pub dst_manifest : Replica → Str → FileOnDisk
  dst_manifest s id = manifest_at s.dir id

  abbrev pub copy_manifest_if : Str → PairCounters → Bool → Rep PairCounters
  copy_manifest_if id pair false = pure pair
  copy_manifest_if id pair true = do
    bytes ← copy_file_atomic (io.manifest_refused id) (src_manifest id) (put_manifest id)
    pure (counted_manifest bytes pair)

  unfoldable pub copy_manifest : Str → PairCounters → Rep PairCounters
  unfolding copy_file_atomic
  copy_manifest id pair = do
    needs ← gets (λ s. manifest_needs_copy (src_manifest id) (dst_manifest s id))
    copy_manifest_if id pair needs

  abbrev pub file_at : Map (Str × Str) FileOnDisk → Str × Str → FileOnDisk
  file_at blobs path = or_absent (get path blobs)

  abbrev pub repair_blob_if : BlobReplicationPlan → PairCounters → Bool → Rep PairCounters
  repair_blob_if blob pair false = pure pair
  repair_blob_if blob pair true = do
    bytes ←
        copy_file_atomic (io.blob_refused blob.expected_sha256) (file_at src_blobs blob.path)
          (put_blob blob.path)
    gets (λ s.
        require_plaintext_hash io.hashing io.parse_manifest (file_at s.blobs blob.path)
          blob.expected_sha256)
    pure (counted_blob bytes pair)

  unfoldable pub repair_blobs : List BlobReplicationPlan → PairCounters → Rep PairCounters
  unfolding copy_file_atomic
  repair_blobs [] pair = pure pair
  repair_blobs (blob ∷ blobs) pair = do
    needs ← gets (λ s.
        blob_needs_copy io.hashing io.parse_manifest (file_at s.blobs blob.path)
          blob.expected_sha256)
    next ← repair_blob_if blob pair needs
    repair_blobs blobs next

  unfoldable pub copy_plans : List VersionReplicationPlan → PairCounters → Rep PairCounters
  unfolding copy_manifest repair_blobs
  copy_plans [] pair = pure pair
  copy_plans (plan ∷ plans) pair = do
    next ← copy_manifest plan.version_id pair
    repaired ← repair_blobs plan.blobs next
    copy_plans plans repaired

  -- `if let Ok(bytes) = copy_file_atomic(...)`
  abbrev pub or_uncounted :
      PairCounters
      → Result ReplicationError ℕ × Replica
      → Result ReplicationError PairCounters × Replica
  or_uncounted pair (ok bytes, s) = (ok (counted_bytes bytes pair), s)
  or_uncounted pair (err e, s) = (ok pair, s)

  abbrev pub copy_report_if : PairCounters → RegularFileState → Rep PairCounters
  copy_report_if pair missing = pure pair
  copy_report_if pair regular = do
    _ ← gets (λ s. regular_file_state s.dir.scan_report)
    λ s. or_uncounted pair (copy_file_atomic io.report_refused src.scan_report put_report s)

  unfoldable pub copy_report : PairCounters → Rep PairCounters
  unfolding copy_file_atomic
  copy_report pair = do state ← lift (regular_file_state src.scan_report); copy_report_if pair state

  -- `mirror_manifest_deletions`, over the files that stand in the replica's directory.
  abbrev pub removed_file : Bool → Str → Rep (Unit {0})
  removed_file true id s = (err removal_failed, s)
  removed_file false id s =
      (ok tt, record s { dir = record s.dir { manifests = remove id s.dir.manifests } })

  abbrev pub delete_or_stop : ℕ → Str → ℕ → (ℕ → ℕ → Rep ℕ) → Rep ℕ
  delete_or_stop zero id deleted more = pure deleted
  delete_or_stop (suc left) id deleted more = do
    removed_file (io.removal_refused id) id
    more left (suc deleted)

  abbrev pub mirror_entry : Bool → ℕ → Str → ℕ → (ℕ → ℕ → Rep ℕ) → Rep ℕ
  mirror_entry false remaining id deleted more = more remaining deleted
  mirror_entry true remaining id deleted more = delete_or_stop remaining id deleted more

  unfoldable pub mirror_loop : List VersionInfo → Map Str FileOnDisk → ℕ → ℕ → Rep ℕ
  mirror_loop versions [] remaining deleted = pure deleted
  mirror_loop versions ((id, f) ∷ names) remaining deleted =
      mirror_entry (unlisted (is_regular_file f) versions id) remaining id deleted
        (mirror_loop versions names)

  abbrev pub if_any_left : ℕ → Rep ℕ → Rep ℕ
  if_any_left zero m = pure 0
  if_any_left (suc left) m = m

  unfoldable pub mirror_manifest_deletions : ℕ → VersionIndex → Rep ℕ
  unfolding mirror_loop
  mirror_manifest_deletions max_deletes index =
      if_any_left max_deletes λ s. mirror_loop index.versions s.dir.manifests max_deletes 0 s

  abbrev pub mirrored : MirrorConfig → VersionIndex → PairCounters → Bool → Rep PairCounters
  mirrored cfg index pair false = pure pair
  mirrored cfg index pair true = do
    deleted ← mirror_manifest_deletions cfg.max_deletes index
    pure (record pair { manifests_deleted = sat_add pair.manifests_deleted deleted })

  abbrev pub safe_index :
      VersionIndex → Result IndexError (Unit {0}) → Result ReplicationError VersionIndex
  safe_index index (ok u) = ok index
  safe_index index (err e) = err (unsafe_index e)

  abbrev pub parsed_index : Option VersionIndex → Result ReplicationError VersionIndex
  parsed_index none = err bad_json
  parsed_index (some index) = safe_index index (validate_version_index index)

  -- `read_json`, then `validate_version_index`.
  abbrev pub read_index_json : FileOnDisk → Result ReplicationError VersionIndex
  read_index_json (file (some raw)) = parsed_index (io.parse_index raw)
  read_index_json _ = err unreadable

  -- An index of the replica that is there must be one.
  abbrev pub checked_replica : Replica → RegularFileState → Result ReplicationError (Unit {0})
  checked_replica s missing = ok tt
  checked_replica s regular = forget (read_index_json s.dir.index)

  -- The last steps: both sides are checked again, then the index is published.
  abbrev pub publish :
      MirrorConfig → VersionIndex → List VersionReplicationPlan → PairCounters → Rep PairCounters
  publish cfg index plans pair = do
    gets (λ s.
        validate_replication_plans io.hashing io.parse_manifest src src_blobs s.dir s.blobs plans)
    bytes ← copy_file_atomic io.index_refused src.index put_index
    mirrored cfg index (counted_bytes bytes pair) cfg.mirror_manifests

  -- What follows once the source's index is read.
  abbrev pub replicate_index : MirrorConfig → PairCounters → VersionIndex → Rep PairCounters
  replicate_index cfg pair index = do
    state ← gets (λ s. regular_file_state s.dir.index)
    gets (λ s. checked_replica s state)
    plans ← lift (build_replication_plans io.hashing io.parse_manifest src src_blobs index.versions)
    copied ← copy_plans plans pair
    reported ← copy_report copied
    publish cfg index plans reported

  -- The body of the loop over the source's directories, where its index is a regular file.
  unfoldable pub replicate_source : MirrorConfig → PairCounters → Rep PairCounters
  unfolding copy_plans copy_report copy_file_atomic mirror_manifest_deletions
      validate_replication_plans build_replication_plans regular_file_state
  replicate_source cfg pair = do
    index ← lift (read_index_json src.index)
    replicate_index cfg pair index
