-- ===== src/Versioned/Commit.antt =====
-- `backup_one_folder` of crates/core/src/backup/versioned/store.rs: scan, materialize, commit, and
-- retention, with `load_index`, `latest_manifest` and `finish_scan_without_new_version`.
pub mod Store
pub mod Collect
pub mod Writes
pub mod Unlisted
pub mod Opened
pub mod Finished
pub mod Indexed
pub mod Fresh
pub mod Stages
pub mod Backup
use backup_sync.Prelude.{
  ℕ, zero, suc, ◌+◌, Bool, true, false, not, ◌&&◌, ◌||◌, Option, none, some, List, [], ◌∷◌, ◌++◌,
  max, if◌then◌else◌, Str, codes, length, show_u32, Result, ok, err,
}
use backup_sync.Prelude.Int.{ℤ}
use backup_sync.Map.{Map, get, insert, remove, contains_key, str_key}
use backup_sync.Versioned.Model.{
  VersionInfo, VersionIndex, Manifest, ReadFailure, SourceSnapshotInfo,
}
use backup_sync.Versioned.Validation.{IndexError, validate_version_index}
use backup_sync.Versioned.Prune.{collect_prunable_versions, retain_unpruned}
use backup_sync.Versioned.Disk.{
  Disk, StoreError, Hashing, IndexFile, absent, corrupt, index_file, SourceStore, source_of,
  LastScanReport, unreadable, unsafe_index, io_failed, no_fresh_id,
}
use backup_sync.Versioned.Exec.{Exec, pure, lift, ◌>>=◌, ◌>>◌}
use backup_sync.Versioned.Compare.{WatchedKind, manifests_equivalent}
use backup_sync.Versioned.Scan.{SourceView, ScanConfig}
use backup_sync.Versioned.Scan.Snapshot.{Scanned, scan_entries}
use backup_sync.Versioned.Blobs.{BlobIo, Pass, write_missing_blobs_for_snapshot}
use backup_sync.Versioned.Gc.{GcIo, gc_unreferenced_blobs}
use backup_sync.Versioned.Baseline.{
  F64, SafetyWarning, later_version, maybe_pin_large_deletion_baseline,
}
use backup_sync.Versioned.Folder.{
  Written, not_written, unsynced, durable, durably, set_source, FolderBackupResult, FolderIo,
  longest, fresh_from, fresh_version_id, insert_version, sort_versions, store_schema_version,
  empty_index, validated, read_index, read_manifest, latest_in, has_failures, has_changed,
}

module _ (hashing : Hashing) (f64 : F64) (cfg : ScanConfig) (threshold : f64.F) (kind : WatchedKind)
    (source_path name source_id : Str) (keep_versions : ℕ) (io : FolderIo) where
  unfoldable pub load_index : Exec VersionIndex
  load_index d = (read_index source_path (source_of d source_id).index, d)

  unfoldable pub latest_manifest : VersionIndex → Exec (Option Manifest)
  unfolding latest_in
  latest_manifest index d = (latest_in (source_of d source_id).manifests index.versions, d)

  unfoldable pub write_index : VersionIndex → Exec (Unit {0})
  write_index index =
      durably io.index (io_failed (codes "index.json"))
        (set_source source_id (λ s. record s { index = index_file index }))

  abbrev pub report_of : Manifest → Option Str → LastScanReport
  report_of snapshot committed = record {
    schema_version = snapshot.schema_version;
    source_path = snapshot.source_path;
    created_at_unix = snapshot.created_at_unix;
    committed_version_id = committed;
    source_snapshot = snapshot.source_snapshot;
    source_snapshot_error = snapshot.source_snapshot_error;
    read_failures = snapshot.read_failures;
  }

  unfoldable pub write_scan_report : Manifest → Option Str → Exec (Unit {0})
  write_scan_report snapshot committed =
      durably io.report (io_failed (codes "last_scan_report.json"))
        (set_source source_id (λ s. record s { scan_report = some (report_of snapshot committed) }))

  unfoldable pub write_manifest : Str → Manifest → Exec (Unit {0})
  write_manifest id snapshot =
      durably io.manifest (io_failed id)
        (set_source source_id (λ s. record s { manifests = insert id (some snapshot) s.manifests }))

  -- `create_dir_all_durable` for the blobs and for the source's manifests.
  unfoldable pub make_directories : Exec (Unit {0})
  make_directories = durably io.blobs_dir (io_failed (codes "blobs")) (λ d. d) >>= λ _.
      durably io.manifests_dir (io_failed source_id) (set_source source_id (λ s. s))

  -- `scan_snapshot`, and what the source view tells of itself.
  unfoldable pub candidate : Option Manifest → Option SourceSnapshotInfo × Option Str → Manifest
  candidate prev (info, error) =
      let scanned = scan_entries cfg io.view prev kind name in
      record {
        schema_version = store_schema_version;
        source_path = source_path;
        created_at_unix = io.now;
        source_snapshot = info;
        source_snapshot_error = error;
        read_failures = scanned.read_failures;
        entries = scanned.entries;
      }

  abbrev pub baseline_moved :
      Option Manifest
      → Manifest
      → Map Str (Option Manifest)
      → VersionIndex
      → Bool
      → Option SafetyWarning × (Bool × VersionIndex)
  baseline_moved none snapshot manifests index had = (none, (false, index))
  baseline_moved (some prev) snapshot manifests index had =
      maybe_pin_large_deletion_baseline f64 io.now threshold manifests prev snapshot index had

  abbrev pub write_index_if : Bool → VersionIndex → Exec (Unit {0})
  write_index_if true index = write_index index
  write_index_if false index = pure tt

  abbrev pub unchanged_result : Option SafetyWarning → ℕ → ℕ → Exec FolderBackupResult
  unchanged_result warning blobs bytes = pure (record {
    changed = false;
    version_id = none;
    blobs_written = blobs;
    bytes_written = bytes;
    safety_warning = warning;
  })

  abbrev pub report_unchanged :
      Manifest → Option SafetyWarning → ℕ → ℕ → Unit {0} → Exec FolderBackupResult
  report_unchanged snapshot warning blobs bytes u =
      write_scan_report snapshot none >>= λ _. unchanged_result warning blobs bytes

  unfoldable pub finish_scan_without_new_version :
      Option Manifest → Manifest → VersionIndex → Bool → ℕ → ℕ → Exec FolderBackupResult
  unfolding write_index write_scan_report
  finish_scan_without_new_version prev snapshot index had blobs bytes d =
      let (warning, (index_changed, moved)) =
        baseline_moved prev snapshot (source_of d source_id).manifests index had in
      (write_index_if index_changed moved >>= report_unchanged snapshot warning blobs bytes) d

  -- The manifests of the pruned versions, as far as the file system lets them go.
  unfoldable pub remove_manifests : List VersionInfo → Disk → Disk
  remove_manifests [] d = d
  remove_manifests (v ∷ vs) d = remove_manifests vs (
      if io.prune_refused v.id
      then d
      else set_source source_id (λ s. record s { manifests = remove v.id s.manifests }) d)

  -- After the commit.
  unfoldable pub clean_up : List VersionInfo → Exec (Unit {0})
  unfolding remove_manifests
  clean_up [] d = (ok tt, d)
  clean_up (v ∷ vs) d = gc_unreferenced_blobs io.gc (remove_manifests (v ∷ vs) d)

  abbrev pub committed_index : VersionIndex → Str → Manifest → VersionIndex
  committed_index index id snapshot = record index {
    schema_version = store_schema_version;
    source_path = source_path;
    versions =
        sort_versions
          (index.versions ++ record { id = id; created_at_unix = snapshot.created_at_unix } ∷ []);
  }

  -- Only a scan without read failures prunes.
  abbrev pub pruned_of : Bool → VersionIndex → List VersionInfo
  pruned_of had index = if had then [] else collect_prunable_versions index keep_versions

  abbrev pub pruned_index : Bool → VersionIndex → VersionIndex
  pruned_index had index = record index {
    versions = if had then index.versions else retain_unpruned (pruned_of had index) index.versions;
  }

  abbrev pub after_report :
      List VersionInfo → FolderBackupResult → Unit {0} → Exec FolderBackupResult
  after_report pruned result u = clean_up pruned >>= λ _. pure result

  abbrev pub after_index :
      Str → Manifest → List VersionInfo → FolderBackupResult → Unit {0} → Exec FolderBackupResult
  after_index id snapshot pruned result u =
      write_scan_report snapshot (some id) >>= after_report pruned result

  abbrev pub after_manifest :
      Str → Manifest → Bool → VersionIndex → FolderBackupResult → Unit {0} → Exec FolderBackupResult
  after_manifest id snapshot had index result u =
      write_index (pruned_index had index) >>= after_index id snapshot (pruned_of had index) result

  -- Stage 3.
  unfoldable pub commit_version :
      Option Manifest → VersionIndex → Str → Pass → Bool → Exec FolderBackupResult
  unfolding write_manifest write_index write_scan_report clean_up
  commit_version prev index id pass had d =
      let (warning, (index_changed, moved)) =
        baseline_moved prev pass.snapshot (source_of d source_id).manifests index had in
      let result : FolderBackupResult = record {
        changed = true;
        version_id = some id;
        blobs_written = pass.blobs_written;
        bytes_written = pass.bytes_written;
        safety_warning = warning;
      } in
      (write_manifest id pass.snapshot
          >>= after_manifest id pass.snapshot had (committed_index moved id pass.snapshot) result)
        d

  -- Stage 2, and the second look at what has changed.
  abbrev pub settle_pass :
      Option Manifest → VersionIndex → Str → Bool → Pass → Exec FolderBackupResult
  settle_pass prev index id had pass =
      if has_changed prev pass.snapshot
      then commit_version prev index id pass (had || pass.had_read_failures)
      else finish_scan_without_new_version prev pass.snapshot index (had || pass.had_read_failures)
          pass.blobs_written pass.bytes_written

  abbrev pub materialize_as :
      Option Manifest → VersionIndex → Manifest → Option Str → Exec FolderBackupResult
  materialize_as prev index snapshot none d = (err no_fresh_id, d)
  materialize_as prev index snapshot (some id) d =
      let pass =
        write_missing_blobs_for_snapshot hashing io.blob cfg.hashing_timeout_seconds cfg.retries
          prev snapshot d in
      settle_pass prev index id (has_failures snapshot.read_failures) pass pass.disk

  unfoldable pub materialize : Option Manifest → VersionIndex → Manifest → Exec FolderBackupResult
  unfolding commit_version fresh_version_id
  materialize prev index snapshot d =
      materialize_as prev index snapshot
        (fresh_version_id (source_of d source_id).manifests io.stamp) d

  -- Stage 1.
  abbrev pub with_view :
      VersionIndex
      → Option Manifest
      → Option SourceSnapshotInfo × Option Str
      → Exec FolderBackupResult
  with_view index prev info =
      let snapshot = candidate prev info in
      if has_changed prev snapshot
      then materialize prev index snapshot
      else finish_scan_without_new_version prev snapshot index (has_failures snapshot.read_failures)
          0 0

  abbrev pub with_latest : VersionIndex → Option Manifest → Exec FolderBackupResult
  with_latest index prev = lift io.view_prepared >>= with_view index prev

  abbrev pub with_directories : VersionIndex → Unit {0} → Exec FolderBackupResult
  with_directories index u = latest_manifest index >>= with_latest index

  abbrev pub with_index : VersionIndex → Exec FolderBackupResult
  with_index index = make_directories >>= with_directories index

  unfoldable pub backup_one_folder : Exec FolderBackupResult
  unfolding load_index latest_manifest make_directories candidate finish_scan_without_new_version
      materialize
  backup_one_folder = load_index >>= with_index
