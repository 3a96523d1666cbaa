-- ===== src/Versioned/Commit/Finished.antt =====
-- `finish_scan_without_new_version` (store.rs).
use mathlib.Core.Path.{subst}
use backup_sync.Prelude.{ℕ, sym, Bool, true, false, Option, none, some, Str, codes, Result, ok, err}
use backup_sync.Map.{str_key}
use backup_sync.Versioned.Model.{VersionIndex, Manifest}
use backup_sync.Versioned.Disk.{Disk, Hashing, source_of, StoreError, io_failed}
use backup_sync.Versioned.Exec.{Outcome, Hoare, Hoare-bind}
use backup_sync.Versioned.Compare.{WatchedKind}
use backup_sync.Versioned.Scan.{ScanConfig}
use backup_sync.Versioned.Baseline.{F64, SafetyWarning}
use backup_sync.Versioned.Commit.{
  write_index, write_scan_report, report_of, baseline_moved, write_index_if, unchanged_result,
  report_unchanged, finish_scan_without_new_version,
}
use backup_sync.Versioned.Folder.{FolderIo, set_source}
use backup_sync.Versioned.Commit.Store.{
  AllReadable, StoreOk, source_of-SourceOk, set_source-StoreOk,
}
use backup_sync.Versioned.Commit.Writes.{durably-Hoare, Ready, Listed}
use backup_sync.Versioned.Commit.Opened.{moved_versions, write_index-Hoare}

module _ (hashing : Hashing) (f64 : F64) (cfg : ScanConfig) (threshold : f64.F) (kind : WatchedKind)
    (source_path name source_id : Str) (keep_versions : ℕ) (io : FolderIo) where
  abbrev Store : Disk → Type 0
  Store d = StoreOk hashing d

  write_scan_report-Hoare :
      (snapshot : Manifest) (committed : Option Str)
      → Hoare Store
          (write_scan_report hashing f64 cfg threshold kind source_path name source_id keep_versions
            io snapshot committed)
          (λ u. Store)
          Store
  unfolding write_scan_report
  write_scan_report-Hoare snapshot committed =
      durably-Hoare Store Store Store io.report (io_failed (codes "last_scan_report.json"))
        (set_source source_id (λ s. record s {
          scan_report = some (
              report_of hashing f64 cfg threshold kind source_path name source_id keep_versions io
                snapshot committed);
        }))
        (λ d h.
          let o = source_of-SourceOk hashing d source_id h in
          set_source-StoreOk hashing source_id
            (λ s. record s {
              scan_report = some (
                  report_of hashing f64 cfg threshold kind source_path name source_id keep_versions
                    io snapshot committed);
            })
            d (record { backed = o.backed; readable = o.readable }) h)
        (λ d h. h) (λ d h. h)

  unchanged_Hoare :
      (snapshot : Manifest) (warning : Option SafetyWarning) (blobs bytes : ℕ) (u : Unit {0})
      → Hoare Store
          (report_unchanged hashing f64 cfg threshold kind source_path name source_id keep_versions
            io snapshot warning blobs bytes u)
          (λ r. Store)
          Store
  unchanged_Hoare snapshot warning blobs bytes u =
      Hoare-bind
        (write_scan_report hashing f64 cfg threshold kind source_path name source_id keep_versions
          io snapshot none)
        (λ x.
          unchanged_result hashing f64 cfg threshold kind source_path name source_id keep_versions
            io warning blobs bytes)
        (write_scan_report-Hoare snapshot none) (λ x. record { run = λ d h. h })

  write_index_if-Hoare :
      (changed : Bool) (index : VersionIndex)
      → Hoare
          (Ready hashing source_id index)
          (write_index_if hashing f64 cfg threshold kind source_path name source_id keep_versions io
            changed index)
          (λ u. Store)
          Store
  write_index_if-Hoare true index = record {
    run = λ d h.
        weaken
          (write_index hashing f64 cfg threshold kind source_path name source_id keep_versions io
            index d).0
          (write_index hashing f64 cfg threshold kind source_path name source_id keep_versions io
            index d).1
          ((write_index-Hoare hashing f64 cfg threshold kind source_path name source_id
              keep_versions io index).run
            d h);
  }
    where
      weaken :
          (r : Result StoreError (Unit {0})) (d : Disk)
          → Outcome (λ u. Listed hashing source_id index) Store r d
          → Outcome (λ u. Store) Store r d
      weaken (ok u) d h = h.0
      weaken (err e) d h = h
  write_index_if-Hoare false index = record { run = λ d h. h.0 }

  pub finish-Hoare :
      (prev : Option Manifest) (snapshot : Manifest) (index : VersionIndex) (had : Bool)
      (blobs bytes : ℕ)
      → Hoare
          (Ready hashing source_id index)
          (finish_scan_without_new_version hashing f64 cfg threshold kind source_path name source_id
            keep_versions io prev snapshot index had blobs bytes)
          (λ r. Store)
          Store
  unfolding finish_scan_without_new_version
  finish-Hoare prev snapshot index had blobs bytes = record {
    run = λ d ready.
        let manifests = (source_of d source_id).manifests in
        let b =
          baseline_moved hashing f64 cfg threshold kind source_path name source_id keep_versions io
            prev snapshot manifests index had in
        (Hoare-bind
            (write_index_if hashing f64 cfg threshold kind source_path name source_id keep_versions
              io b.1.0 b.1.1)
            (report_unchanged hashing f64 cfg threshold kind source_path name source_id
              keep_versions io snapshot b.0 blobs bytes)
            (write_index_if-Hoare b.1.0 b.1.1) (unchanged_Hoare snapshot b.0 blobs bytes)).run
          d
          (
            ready.0,
            subst (AllReadable manifests)
                (sym (
                  moved_versions hashing f64 cfg threshold kind source_path name source_id
                    keep_versions io prev snapshot manifests index had))
                ready.1,
          );
  }
