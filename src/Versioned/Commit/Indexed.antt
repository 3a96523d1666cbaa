-- ===== src/Versioned/Commit/Indexed.antt =====
-- The write of the index in `backup_one_folder` (store.rs), and the retention after it.
use backup_sync.Prelude.{
  ℕ, ◌≡◌, refl, Bool, true, false, Option, some, List, [], ◌∷◌, if◌then◌else◌, Str, codes, str_eq,
  inl, inr, In,
}
use backup_sync.Map.{remove, str_key}
use backup_sync.Versioned.Model.{VersionInfo, VersionIndex, Manifest}
use backup_sync.Versioned.Prune.{collect_prunable_versions}
use backup_sync.Versioned.Disk.{Disk, Hashing, SourceStore, io_failed}
use backup_sync.Versioned.Exec.{Hoare, Hoare-bind, pure}
use backup_sync.Versioned.Compare.{WatchedKind}
use backup_sync.Versioned.Scan.{ScanConfig}
use backup_sync.Versioned.Gc.{gc_unreferenced_blobs}
use backup_sync.Versioned.Baseline.{F64}
use backup_sync.Versioned.Commit.{
  write_index, write_scan_report, report_of, remove_manifests, clean_up, pruned_of, pruned_index,
  after_report, after_index, after_manifest,
}
use backup_sync.Versioned.Folder.{FolderIo, FolderBackupResult, set_source}
use backup_sync.Versioned.Commit.Store.{StoreOk}
use backup_sync.Versioned.Commit.Collect.{gc_unreferenced_blobs-StoreOk}
use backup_sync.Versioned.Commit.Writes.{durably-Hoare, Ready, Listed, same-Listed, removal-Listed}
use backup_sync.Versioned.Commit.Opened.{Outcome-of, write_index-Hoare}
use backup_sync.Versioned.Commit.Unlisted.{retained_unlisted, retained_listed}

module _ (hashing : Hashing) (f64 : F64) (cfg : ScanConfig) (threshold : f64.F) (kind : WatchedKind)
    (source_path name source_id : Str) (keep_versions : ℕ) (io : FolderIo) where
  abbrev Store : Disk → Type 0
  Store d = StoreOk hashing d

  removal_step :
      (refused : Bool) (index : VersionIndex) (p : VersionInfo) (d : Disk)
      → ((v : VersionInfo) → In v index.versions → str_eq p.id v.id ≡ false)
      → Listed hashing source_id index d
      → Listed hashing source_id index (
          if refused
          then d
          else set_source source_id (λ s. record s { manifests = remove p.id s.manifests }) d)
  removal_step true index p d unlisted h = h
  removal_step false index p d unlisted h = removal-Listed hashing source_id index p.id d unlisted h

  remove_manifests-Listed :
      (index : VersionIndex) (pruned : List VersionInfo) (d : Disk)
      → ((p v : VersionInfo) → In p pruned → In v index.versions → str_eq p.id v.id ≡ false)
      → Listed hashing source_id index d
      → Listed hashing source_id index (
          remove_manifests hashing f64 cfg threshold kind source_path name source_id keep_versions
            io pruned d)
  unfolding remove_manifests
  remove_manifests-Listed index [] d unlisted h = h
  remove_manifests-Listed index (p ∷ pruned) d unlisted h =
      remove_manifests-Listed index pruned
        (if io.prune_refused p.id
          then d
          else set_source source_id (λ s. record s { manifests = remove p.id s.manifests }) d)
        (λ q v place listed. unlisted q v (inr place) listed)
        (removal_step (io.prune_refused p.id) index p d (λ v listed. unlisted p v (inl refl) listed)
          h)

  clean_up-Hoare :
      (index : VersionIndex) (pruned : List VersionInfo)
      → ((p v : VersionInfo) → In p pruned → In v index.versions → str_eq p.id v.id ≡ false)
      → Hoare
          (Listed hashing source_id index)
          (clean_up hashing f64 cfg threshold kind source_path name source_id keep_versions io
            pruned)
          (λ u. Store)
          Store
  unfolding clean_up
  clean_up-Hoare index [] unlisted = record { run = λ d h. h.0 }
  clean_up-Hoare index (p ∷ pruned) unlisted = record {
    run = λ d h.
        let e =
          remove_manifests hashing f64 cfg threshold kind source_path name source_id keep_versions
            io (p ∷ pruned) d in
        let kept = (remove_manifests-Listed index (p ∷ pruned) d unlisted h).0 in
        let after = gc_unreferenced_blobs-StoreOk hashing io.gc e kept in
        Outcome-of (λ u. Store) Store (gc_unreferenced_blobs io.gc e).0
          (gc_unreferenced_blobs io.gc e).1 (λ u q. after) after;
  }

  after_report-Hoare :
      (index : VersionIndex) (pruned : List VersionInfo) (result : FolderBackupResult)
      (u : Unit {0})
      → ((p v : VersionInfo) → In p pruned → In v index.versions → str_eq p.id v.id ≡ false)
      → Hoare
          (Listed hashing source_id index)
          (after_report hashing f64 cfg threshold kind source_path name source_id keep_versions io
            pruned result u)
          (λ r. Store)
          Store
  after_report-Hoare index pruned result u unlisted =
      Hoare-bind
        (clean_up hashing f64 cfg threshold kind source_path name source_id keep_versions io pruned)
        (λ x. pure result) (clean_up-Hoare index pruned unlisted) (λ x. record { run = λ d h. h })

  report_Listed :
      (index : VersionIndex) (snapshot : Manifest) (committed : Option Str)
      → Hoare
          (Listed hashing source_id index)
          (write_scan_report hashing f64 cfg threshold kind source_path name source_id keep_versions
            io snapshot committed)
          (λ u. Listed hashing source_id index)
          Store
  unfolding write_scan_report
  report_Listed index snapshot committed =
      let listed = Listed hashing source_id index in
      let f = λ (s : SourceStore). record s {
        scan_report = some (
            report_of hashing f64 cfg threshold kind source_path name source_id keep_versions io
              snapshot committed);
      } in
      durably-Hoare listed listed Store io.report (io_failed (codes "last_scan_report.json"))
        (set_source source_id f)
        (λ d h. same-Listed hashing source_id f index d (λ s. refl) (λ s. refl) h) (λ d h. h.0)
        (λ d h. h.0)

  after_index-Hoare :
      (index : VersionIndex) (id : Str) (snapshot : Manifest) (pruned : List VersionInfo)
      (result : FolderBackupResult) (u : Unit {0})
      → ((p v : VersionInfo) → In p pruned → In v index.versions → str_eq p.id v.id ≡ false)
      → Hoare
          (Listed hashing source_id index)
          (after_index hashing f64 cfg threshold kind source_path name source_id keep_versions io id
            snapshot pruned result u)
          (λ r. Store)
          Store
  after_index-Hoare index id snapshot pruned result u unlisted =
      Hoare-bind
        (write_scan_report hashing f64 cfg threshold kind source_path name source_id keep_versions
          io snapshot (some id))
        (after_report hashing f64 cfg threshold kind source_path name source_id keep_versions io
          pruned result)
        (report_Listed index snapshot (some id))
        (λ x. after_report-Hoare index pruned result x unlisted)

  pruned_unlisted :
      (had : Bool) (index : VersionIndex) (p v : VersionInfo)
      → In p (
          pruned_of hashing f64 cfg threshold kind source_path name source_id keep_versions io had
            index)
      → In v
          (pruned_index hashing f64 cfg threshold kind source_path name source_id keep_versions io
            had index).versions
      → str_eq p.id v.id ≡ false
  pruned_unlisted true index p v place listed = absurd place
  pruned_unlisted false index p v place listed =
      retained_unlisted (collect_prunable_versions index keep_versions) index.versions p v place
        listed

  pruned_Ready :
      (had : Bool) (index : VersionIndex) (d : Disk)
      → Ready hashing source_id index d
      → Ready hashing source_id
          (pruned_index hashing f64 cfg threshold kind source_path name source_id keep_versions io
            had index)
          d
  pruned_Ready true index d h = h
  pruned_Ready false index d (store, readable) = (
    store,
    λ v listed.
        readable v
          (retained_listed (collect_prunable_versions index keep_versions) index.versions v listed),
  )

  pub after_manifest-Hoare :
      (id : Str) (snapshot : Manifest) (had : Bool) (index : VersionIndex)
      (result : FolderBackupResult) (u : Unit {0})
      → Hoare
          (Ready hashing source_id index)
          (after_manifest hashing f64 cfg threshold kind source_path name source_id keep_versions io
            id snapshot had index result u)
          (λ r. Store)
          Store
  after_manifest-Hoare id snapshot had index result u =
      let rest =
        Hoare-bind
          (write_index hashing f64 cfg threshold kind source_path name source_id keep_versions io (
            pruned_index hashing f64 cfg threshold kind source_path name source_id keep_versions io
              had index))
          (after_index hashing f64 cfg threshold kind source_path name source_id keep_versions io id
            snapshot
            (pruned_of hashing f64 cfg threshold kind source_path name source_id keep_versions io
              had index)
            result)
          (write_index-Hoare hashing f64 cfg threshold kind source_path name source_id keep_versions
            io
            (pruned_index hashing f64 cfg threshold kind source_path name source_id keep_versions io
              had index))
          (λ x.
            after_index-Hoare
              (pruned_index hashing f64 cfg threshold kind source_path name source_id keep_versions
                io had index)
              id snapshot
              (pruned_of hashing f64 cfg threshold kind source_path name source_id keep_versions io
                had index)
              result x (pruned_unlisted had index)) in
      record { run = λ d h. rest.run d (pruned_Ready had index d h) }
