-- ===== src/Versioned/Commit/Stages.antt =====
-- From the scan to the committed version in `backup_one_folder` (store.rs).
use mathlib.Core.Path.{subst}
use backup_sync.Prelude.{
  ℕ, ◌≡◌, sym, Bool, true, ◌||◌, Option, none, some, [], ◌∷◌, ◌++◌, ap, Str, ◌⊎◌, inl, inr,
  Bool-cases, In,
}
use backup_sync.Map.{get, insert, str_key}
use backup_sync.Versioned.Model.{VersionInfo, VersionIndex, Manifest}
use backup_sync.Versioned.Disk.{Disk, Hashing, source_of, or_no_source, io_failed}
use backup_sync.Versioned.Exec.{Outcome, Hoare, Hoare-bind}
use backup_sync.Versioned.Compare.{WatchedKind}
use backup_sync.Versioned.Scan.{ScanConfig}
use backup_sync.Versioned.Scan.Entries.{IsCoherent}
use backup_sync.Versioned.Blobs.{Pass, write_missing_blobs_for_snapshot}
use backup_sync.Versioned.Blobs.Written.{Grown}
use backup_sync.Versioned.Blobs.Backed.{write_missing_blobs_for_snapshot-Materialized}
use backup_sync.Versioned.Blobs.Entries.{IsBacked}
use backup_sync.Versioned.Baseline.{F64}
use backup_sync.Versioned.Commit.{
  write_manifest, baseline_moved, committed_index, after_manifest, commit_version, settle_pass,
  materialize_as, materialize,
}
use backup_sync.Versioned.Folder.{
  FolderIo, FolderBackupResult, set_source, has_failures, has_changed, fresh_version_id,
}
use backup_sync.Versioned.Commit.Store.{AllReadable, StoreOk, Grown-StoreOk}
use backup_sync.Versioned.Commit.Writes.{
  durably-Hoare, In-sort_versions, In-snoc, Ready, manifest-Ready,
}
use backup_sync.Versioned.Commit.Opened.{PrevOk, moved_versions}
use backup_sync.Versioned.Commit.Finished.{finish-Hoare}
use backup_sync.Versioned.Commit.Indexed.{after_manifest-Hoare}

module _ (hashing : Hashing) (f64 : F64) (cfg : ScanConfig) (threshold : f64.F) (kind : WatchedKind)
    (source_path name source_id : Str) (keep_versions : ℕ) (io : FolderIo) where
  abbrev Store : Disk → Type 0
  Store d = StoreOk hashing d

  -- Stage 3, from a pass whose manifest is coherent and backed.
  new_listed :
      (moved : VersionIndex) (id : Str) (snapshot : Manifest) (v : VersionInfo)
      → In v
          (committed_index hashing f64 cfg threshold kind source_path name source_id keep_versions
            io moved id snapshot).versions
      → In v moved.versions ⊎ (v.id ≡ id)
  new_listed moved id snapshot v place =
      let new : VersionInfo = record { id = id; created_at_unix = snapshot.created_at_unix } in
      elim (In-snoc v new moved.versions (In-sort_versions v (moved.versions ++ new ∷ []) place)) [
        | inl old ↦ inl old
        | inr e ↦ inr (ap (λ (t : VersionInfo). t.id) e)
      ]

  write_manifest-Hoare :
      (moved : VersionIndex) (id : Str) (snapshot : Manifest)
      → IsCoherent snapshot.entries
      → Hoare
          (λ d. Ready hashing source_id moved d × IsBacked hashing d snapshot.entries)
          (write_manifest hashing f64 cfg threshold kind source_path name source_id keep_versions io
            id snapshot)
          (λ u. Ready hashing source_id (
            committed_index hashing f64 cfg threshold kind source_path name source_id keep_versions
              io moved id snapshot))
          Store
  unfolding write_manifest
  write_manifest-Hoare moved id snapshot coherent =
      let next =
        committed_index hashing f64 cfg threshold kind source_path name source_id keep_versions io
          moved id snapshot in
      durably-Hoare (λ d. Ready hashing source_id moved d × IsBacked hashing d snapshot.entries)
        (Ready hashing source_id next) Store io.manifest (io_failed id)
        (set_source source_id (λ s. record s { manifests = insert id (some snapshot) s.manifests }))
        (λ d h.
          manifest-Ready hashing source_id moved next id snapshot d coherent h.1
            (new_listed moved id snapshot) h.0)
        (λ d h. h.0.0) (λ d h. h.0)

  commit_version-Store :
      (prev : Option Manifest) (index : VersionIndex) (id : Str) (pass : Pass) (had : Bool)
      (d : Disk)
      → Ready hashing source_id index d
      → IsCoherent pass.snapshot.entries
      → IsBacked hashing d pass.snapshot.entries
      → Outcome
          (λ r. Store)
          Store
          (commit_version hashing f64 cfg threshold kind source_path name source_id keep_versions io
            prev index id pass had d).0
          (commit_version hashing f64 cfg threshold kind source_path name source_id keep_versions io
            prev index id pass had d).1
  unfolding commit_version
  commit_version-Store prev index id pass had d ready coherent backed =
      let manifests = (source_of d source_id).manifests in
      let b =
        baseline_moved hashing f64 cfg threshold kind source_path name source_id keep_versions io
          prev pass.snapshot manifests index had in
      let result : FolderBackupResult = record {
        changed = true;
        version_id = some id;
        blobs_written = pass.blobs_written;
        bytes_written = pass.bytes_written;
        safety_warning = b.0;
      } in
      let next =
        committed_index hashing f64 cfg threshold kind source_path name source_id keep_versions io
          b.1.1 id pass.snapshot in
      (Hoare-bind
          (write_manifest hashing f64 cfg threshold kind source_path name source_id keep_versions io
            id pass.snapshot)
          (after_manifest hashing f64 cfg threshold kind source_path name source_id keep_versions io
            id pass.snapshot had next result)
          (write_manifest-Hoare b.1.1 id pass.snapshot coherent)
          (λ u.
            after_manifest-Hoare hashing f64 cfg threshold kind source_path name source_id
              keep_versions io id pass.snapshot had next result u)).run
        d
        (
          (
            ready.0,
            subst (AllReadable manifests)
                (sym (
                  moved_versions hashing f64 cfg threshold kind source_path name source_id
                    keep_versions io prev pass.snapshot manifests index had))
                ready.1,
          ),
          backed,
        )

  settle_pass-Store :
      (prev : Option Manifest) (index : VersionIndex) (id : Str) (had : Bool) (pass : Pass)
      → Ready hashing source_id index pass.disk
      → IsCoherent pass.snapshot.entries
      → IsBacked hashing pass.disk pass.snapshot.entries
      → Outcome
          (λ r. Store)
          Store
          (settle_pass hashing f64 cfg threshold kind source_path name source_id keep_versions io
            prev index id had pass pass.disk).0
          (settle_pass hashing f64 cfg threshold kind source_path name source_id keep_versions io
            prev index id had pass pass.disk).1
  settle_pass-Store prev index id had pass ready coherent backed =
      elim (Bool-cases (has_changed prev pass.snapshot)) [
        | inl new ↦ rw new (
            commit_version-Store prev index id pass (had || pass.had_read_failures) pass.disk ready
              coherent backed)
        | inr same ↦ rw same (
            (finish-Hoare hashing f64 cfg threshold kind source_path name source_id keep_versions io
                prev pass.snapshot index (had || pass.had_read_failures) pass.blobs_written
                pass.bytes_written).run
              pass.disk ready)
      ]

  Grown-Ready :
      (index : VersionIndex) (d e : Disk)
      → Grown hashing d e
      → Ready hashing source_id index d
      → Ready hashing source_id index e
  Grown-Ready index d e g (store, readable) = (
    Grown-StoreOk hashing d e g store,
    subst (λ t. AllReadable (or_no_source (get source_id t)).manifests index.versions)
        (sym g.same_sources) readable,
  )

  pub materialize-Store :
      (prev : Option Manifest) (index : VersionIndex) (snapshot : Manifest) (d : Disk)
      → Ready hashing source_id index d
      → PrevOk hashing prev d
      → IsCoherent snapshot.entries
      → Outcome
          (λ r. Store)
          Store
          (materialize hashing f64 cfg threshold kind source_path name source_id keep_versions io
            prev index snapshot d).0
          (materialize hashing f64 cfg threshold kind source_path name source_id keep_versions io
            prev index snapshot d).1
  unfolding materialize
  materialize-Store prev index snapshot d ready prev_ok coherent =
      cases (fresh_version_id (source_of d source_id).manifests io.stamp)
    where
      cases :
          (found : Option Str)
          → Outcome
              (λ r. Store)
              Store
              (materialize_as hashing f64 cfg threshold kind source_path name source_id
                keep_versions io prev index snapshot found d).0
              (materialize_as hashing f64 cfg threshold kind source_path name source_id
                keep_versions io prev index snapshot found d).1
      cases none = ready.0
      cases (some id) =
          let pass =
            write_missing_blobs_for_snapshot hashing io.blob cfg.hashing_timeout_seconds cfg.retries
              prev snapshot d in
          let made =
            write_missing_blobs_for_snapshot-Materialized hashing io.blob
              cfg.hashing_timeout_seconds cfg.retries d prev prev_ok.0 prev_ok.1 snapshot
              ready.0.blobs coherent in
          settle_pass-Store prev index id (has_failures snapshot.read_failures) pass
            (Grown-Ready index d pass.disk made.grown ready) made.coherent made.backed
