-- ===== src/Versioned/Release.antt =====
-- `remove_kept_safety_version` of crates/core/src/backup/versioned/store.rs: the user lets the
-- large-deletion baseline go.
pub mod Kept
use backup_sync.Prelude.{
  Bool, true, false, not, Option, none, some, List, [], ◌∷◌, if◌then◌else◌, Str, codes, str_eq,
  filter, Result, ok, err,
}
use backup_sync.Map.{Map, remove, contains_key, str_key}
use backup_sync.Versioned.Model.{VersionInfo, VersionIndex}
use backup_sync.Versioned.Disk.{Disk, StoreError, SourceStore, source_of, io_failed, index_file}
use backup_sync.Versioned.Exec.{Exec, pure, ◌>>=◌}
use backup_sync.Versioned.Gc.{GcIo, gc_unreferenced_blobs}
use backup_sync.Versioned.Baseline.{is_listed}
use backup_sync.Versioned.Folder.{Written, durably, set_source, read_index}

pub record ReleaseIo : Type 0 where
  pub index : Written
  pub removal_refused : Bool
  pub gc : GcIo

-- `pinned.or(pending)`
abbrev pub kept_version : Option Str → Option Str → Option Str
kept_version none pending = pending
kept_version (some pinned) pending = some pinned

abbrev pub without_safety : List VersionInfo → VersionIndex → VersionIndex
without_safety versions index = record index {
  versions = versions;
  safety_pinned_version_id = none;
  safety_pending_version_id = none;
  safety_pending_first_seen_unix = none;
}

-- `index.versions.retain(|v| v.id != kept)`
unfoldable pub without_version : Str → List VersionInfo → List VersionInfo
without_version kept versions = filter (λ v. not (str_eq v.id kept)) versions

module _ (source_path source_id : Str) (io : ReleaseIo) where
  unfoldable pub store_index : VersionIndex → Exec (Unit {0})
  store_index index =
      durably io.index (io_failed (codes "index.json"))
        (set_source source_id (λ s. record s { index = index_file index }))

  -- `fs::remove_file`, which a missing file fails; a failure of `sync_dir` after it is only logged.
  abbrev pub remove_present : Str → Bool → Exec (Unit {0})
  remove_present kept false d = (err (io_failed kept), d)
  remove_present kept true d =
      if io.removal_refused
      then (err (io_failed kept), d)
      else (ok tt, set_source source_id (λ s. record s { manifests = remove kept s.manifests }) d)

  unfoldable pub remove_manifest : Str → Exec (Unit {0})
  remove_manifest kept d =
      remove_present kept (contains_key kept (source_of d source_id).manifests) d

  abbrev pub after_removal : Str → Unit {0} → Exec (Option Str)
  after_removal kept u = gc_unreferenced_blobs io.gc >>= λ _. pure (some kept)

  abbrev pub after_write : Str → Unit {0} → Exec (Option Str)
  after_write kept u = remove_manifest kept >>= after_removal kept

  abbrev pub release_as : VersionIndex → Option Str → Exec (Option Str)
  release_as index none = pure none
  release_as index (some kept) =
      if is_listed kept index.versions
      then store_index (without_safety (without_version kept index.versions) index)
        >>= after_write kept
      else store_index (without_safety index.versions index) >>= λ _. pure none

  abbrev pub release : VersionIndex → Exec (Option Str)
  release index =
      release_as index (kept_version index.safety_pinned_version_id index.safety_pending_version_id)

  abbrev pub read_source_index : Exec VersionIndex
  read_source_index d = (read_index source_path (source_of d source_id).index, d)

  unfoldable pub remove_kept_safety_version : Exec (Option Str)
  unfolding store_index remove_manifest without_version
  remove_kept_safety_version = read_source_index >>= release
