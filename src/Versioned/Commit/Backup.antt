-- ===== src/Versioned/Commit/Backup.antt =====
-- The whole of `backup_one_folder` (store.rs).
use backup_sync.Prelude.{ℕ, ◌≡◌, true, Option, Str, inl, inr, Bool-cases, Result, ok, err}
use backup_sync.Map.{str_key}
use backup_sync.Versioned.Model.{VersionIndex, Manifest, SourceSnapshotInfo}
use backup_sync.Versioned.Disk.{Disk, Hashing, StoreError, is_lower_hex_sha256}
use backup_sync.Versioned.Exec.{Outcome, Hoare, Hoare-bind, Hoare-lift, lift}
use backup_sync.Versioned.Compare.{WatchedKind}
use backup_sync.Versioned.Scan.{ScanConfig}
use backup_sync.Versioned.Scan.Coherent.{scan_entries-IsCoherent}
use backup_sync.Versioned.Baseline.{F64}
use backup_sync.Versioned.Commit.{
  load_index, latest_manifest, make_directories, candidate, with_view, with_latest,
  with_directories, with_index, backup_one_folder,
}
use backup_sync.Versioned.Folder.{FolderIo, FolderBackupResult, has_failures, has_changed}
use backup_sync.Versioned.Commit.Store.{StoreOk}
use backup_sync.Versioned.Commit.Writes.{Ready}
use backup_sync.Versioned.Commit.Opened.{
  PrevOk, load_index-Hoare, latest_manifest-Hoare, make_directories-Hoare,
}
use backup_sync.Versioned.Commit.Finished.{finish-Hoare}
use backup_sync.Versioned.Commit.Stages.{materialize-Store}

module _ (hashing : Hashing) (f64 : F64) (cfg : ScanConfig) (threshold : f64.F) (kind : WatchedKind)
    (source_path name source_id : Str) (keep_versions : ℕ) (io : FolderIo) where
  abbrev Store : Disk → Type 0
  Store d = StoreOk hashing d

  -- The digests that `hashing::sha256_file` gives name blobs.
  module _
      (hex : (path : Str) (i : ℕ) (h : Str)
        → io.view.sha256_file path i ≡ ok h
        → is_lower_hex_sha256 h ≡ true) where
    with_view-Hoare :
        (index : VersionIndex) (prev : Option Manifest)
        (info : Option SourceSnapshotInfo × Option Str)
        → Hoare
            (λ d. Ready hashing source_id index d × PrevOk hashing prev d)
            (with_view hashing f64 cfg threshold kind source_path name source_id keep_versions io
              index prev info)
            (λ r. Store)
            Store
    unfolding candidate
    with_view-Hoare index prev info = record {
      run = λ d h.
          let snapshot =
            candidate hashing f64 cfg threshold kind source_path name source_id keep_versions io
              prev info in
          let coherent = scan_entries-IsCoherent cfg io.view prev hex h.1.0 kind name in
          elim (Bool-cases (has_changed prev snapshot)) [
            | inl new ↦ rw new (
                materialize-Store hashing f64 cfg threshold kind source_path name source_id
                  keep_versions io prev index snapshot d h.0 h.1 coherent)
            | inr same ↦ rw same (
                (finish-Hoare hashing f64 cfg threshold kind source_path name source_id
                    keep_versions io prev snapshot index (has_failures snapshot.read_failures) 0
                    0).run
                  d h.0)
          ];
    }

    with_latest-Hoare :
        (index : VersionIndex) (prev : Option Manifest)
        → Hoare
            (λ d. Ready hashing source_id index d × PrevOk hashing prev d)
            (with_latest hashing f64 cfg threshold kind source_path name source_id keep_versions io
              index prev)
            (λ r. Store)
            Store
    with_latest-Hoare index prev =
        Hoare-bind (lift io.view_prepared)
          (with_view hashing f64 cfg threshold kind source_path name source_id keep_versions io
            index prev)
          (Hoare-lift (λ d. Ready hashing source_id index d × PrevOk hashing prev d) Store
            io.view_prepared (λ d h. h.0.0))
          (λ info. record { run = λ d h. (with_view-Hoare index prev info).run d h.0 })

    with_directories-Hoare :
        (index : VersionIndex) (u : Unit {0})
        → Hoare
            (Ready hashing source_id index)
            (with_directories hashing f64 cfg threshold kind source_path name source_id
              keep_versions io index u)
            (λ r. Store)
            Store
    with_directories-Hoare index u =
        Hoare-bind
          (latest_manifest hashing f64 cfg threshold kind source_path name source_id keep_versions
            io index)
          (with_latest hashing f64 cfg threshold kind source_path name source_id keep_versions io
            index)
          (latest_manifest-Hoare hashing f64 cfg threshold kind source_path name source_id
            keep_versions io index)
          (λ prev. with_latest-Hoare index prev)

    with_index-Hoare :
        (index : VersionIndex)
        → Hoare
            (Ready hashing source_id index)
            (with_index hashing f64 cfg threshold kind source_path name source_id keep_versions io
              index)
            (λ r. Store)
            Store
    with_index-Hoare index =
        Hoare-bind
          (make_directories hashing f64 cfg threshold kind source_path name source_id keep_versions
            io)
          (with_directories hashing f64 cfg threshold kind source_path name source_id keep_versions
            io index)
          (make_directories-Hoare hashing f64 cfg threshold kind source_path name source_id
            keep_versions io index)
          (λ u. with_directories-Hoare index u)

    -- Where `hashing::sha256_file` gives only digests in lower-case hex, a backup of a folder, run
    -- on a store that can be restored from, leaves one that can, whichever of its reads and writes
    -- fail and wherever it stops: each version that an index lists has a manifest that reads back,
    -- and each file of a manifest that can be read has its blob, which decodes to the content that
    -- its name tells.
    pub backup_one_folder-StoreOk :
        (d : Disk)
        → StoreOk hashing d
        → StoreOk hashing
            (backup_one_folder hashing f64 cfg threshold kind source_path name source_id
              keep_versions io d).1
    unfolding backup_one_folder
    backup_one_folder-StoreOk d h =
        let r =
          backup_one_folder hashing f64 cfg threshold kind source_path name source_id keep_versions
            io d in
        either r.0 r.1 (
          (Hoare-bind
              (load_index hashing f64 cfg threshold kind source_path name source_id keep_versions
                io)
              (with_index hashing f64 cfg threshold kind source_path name source_id keep_versions
                io)
              (load_index-Hoare hashing f64 cfg threshold kind source_path name source_id
                keep_versions io)
              with_index-Hoare).run
            d h)
      where
        either :
            (r : Result StoreError FolderBackupResult) (e : Disk)
            → Outcome (λ x. Store) Store r e
            → Store e
        either (ok x) e o = o
        either (err x) e o = o
