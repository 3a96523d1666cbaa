-- ===== src/Versioned/Folder.antt =====
-- What a folder's backup in crates/core/src/backup/versioned/store.rs reads, writes and is given: durable
-- writes, version ids, the index and the manifests of a source.
use backup_sync.Prelude.{
  ℕ, zero, suc, ◌+◌, Bool, true, false, not, Option, none, some, List, [], ◌∷◌, ◌++◌, max,
  if◌then◌else◌, Str, codes, length, show_u32, Result, ok, err,
}
use backup_sync.Prelude.Int.{ℤ}
use backup_sync.Map.{Map, get, insert, contains_key, str_key}
use backup_sync.Versioned.Model.{
  VersionInfo, VersionIndex, Manifest, ReadFailure, SourceSnapshotInfo,
}
use backup_sync.Versioned.Validation.{IndexError, validate_version_index}
use backup_sync.Versioned.Disk.{
  Disk, StoreError, IndexFile, absent, corrupt, index_file, SourceStore, source_of, unreadable,
  unsafe_index,
}
use backup_sync.Versioned.Exec.{Exec}
use backup_sync.Versioned.Compare.{manifests_equivalent}
use backup_sync.Versioned.Scan.{SourceView}
use backup_sync.Versioned.Blobs.{BlobIo}
use backup_sync.Versioned.Gc.{GcIo}
use backup_sync.Versioned.Baseline.{SafetyWarning, later_version}

-- A durable write: nothing happened, the file is in place but its directory is not synced, or all
-- is well. Both of the first report an error.
pub data Written : Type 0 where
  not_written unsynced durable : Written

abbrev pub durably : Written → StoreError → (Disk → Disk) → Exec (Unit {0})
durably not_written e f d = (err e, d)
durably unsynced e f d = (err e, f d)
durably durable e f d = (ok tt, f d)

-- A change of one source's directory.
abbrev pub set_source : Str → (SourceStore → SourceStore) → Disk → Disk
set_source id f d = record d {
  sources_exist = true;
  sources = insert id (f (source_of d id)) d.sources;
}

pub record FolderBackupResult : Type 0 where
  pub changed : Bool
  pub version_id : Option Str
  pub blobs_written : ℕ
  pub bytes_written : ℕ
  pub safety_warning : Option SafetyWarning

-- What the machine answers during one folder's backup.
pub record FolderIo : Type 0 where
  pub view : SourceView
  pub blob : BlobIo
  pub gc : GcIo
  pub blobs_dir : Written
  pub manifests_dir : Written
  pub manifest : Written
  pub index : Written
  pub report : Written
  -- `prepare_source_view`
  pub view_prepared : Result StoreError (Option SourceSnapshotInfo × Option Str)
  pub prune_refused : Str → Bool
  -- The time as seconds, and as the first version id to try.
  pub now : ℤ
  pub stamp : Str

abbrev pub longest : {V : Type 0} → Map Str V → ℕ
longest [] = 0
longest ((k, v) ∷ m) = max (length k) (longest m)

-- The `while manifest_path.exists()` loop; `fuel` bounds its rounds.
unfoldable pub fresh_from : ℕ → Map Str (Option Manifest) → ℕ → Str → Option Str
fresh_from zero manifests collision id = if contains_key id manifests then none else some id
fresh_from (suc fuel) manifests collision id =
    let next = fresh_from fuel manifests (collision + 1) (id ++ b'-' ∷ show_u32 (collision + 1)) in
    if contains_key id manifests then next else some id

-- Each round makes the id longer, so that it outgrows the names that are taken.
unfoldable pub fresh_version_id : Map Str (Option Manifest) → Str → Option Str
unfolding fresh_from
fresh_version_id manifests stamp = fresh_from (suc (longest manifests)) manifests 0 stamp

-- `sort_by`, which is stable.
unfoldable pub insert_version : VersionInfo → List VersionInfo → List VersionInfo
insert_version v [] = v ∷ []
insert_version v (w ∷ vs) = if later_version v w then w ∷ insert_version v vs else v ∷ w ∷ vs

unfoldable pub sort_versions : List VersionInfo → List VersionInfo
unfolding insert_version
sort_versions [] = []
sort_versions (v ∷ vs) = insert_version v (sort_versions vs)

abbrev pub store_schema_version : ℕ
store_schema_version = 1

abbrev pub empty_index : Str → VersionIndex
empty_index source_path = record {
  schema_version = store_schema_version;
  source_path = source_path;
  versions = [];
  safety_pinned_version_id = none;
  safety_pending_version_id = none;
  safety_pending_first_seen_unix = none;
}

abbrev pub validated : VersionIndex → Result IndexError (Unit {0}) → Result StoreError VersionIndex
validated index (ok u) = ok index
validated index (err e) = err (unsafe_index e)

abbrev pub read_index : Str → IndexFile → Result StoreError VersionIndex
read_index source_path absent = ok (empty_index source_path)
read_index source_path corrupt = err (unreadable (codes "index.json"))
read_index source_path (index_file index) = validated index (validate_version_index index)

abbrev pub read_manifest : Str → Option (Option Manifest) → Result StoreError (Option Manifest)
read_manifest id none = ok none
read_manifest id (some none) = err (unreadable id)
read_manifest id (some (some m)) = ok (some m)

unfoldable pub latest_in :
    Map Str (Option Manifest) → List VersionInfo → Result StoreError (Option Manifest)
latest_in manifests [] = ok none
latest_in manifests (v ∷ []) = read_manifest v.id (get v.id manifests)
latest_in manifests (v ∷ w ∷ vs) = latest_in manifests (w ∷ vs)

abbrev pub has_failures : List ReadFailure → Bool
has_failures [] = false
has_failures (_ ∷ _) = true

abbrev pub has_changed : Option Manifest → Manifest → Bool
has_changed none snapshot = true
has_changed (some prev) snapshot = not (manifests_equivalent prev snapshot)
