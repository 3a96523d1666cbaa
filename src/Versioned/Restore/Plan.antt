-- ===== src/Versioned/Restore/Plan.antt =====
-- What a restore of crates/core/src/backup/versioned/restore.rs reads before it writes anything: the
-- destination, the manifest, the files that it plans and the space for them.
pub mod Planned
use backup_sync.Prelude.{
  ℕ, ◌+◌, Bool, true, false, not, ◌&&◌, Option, none, some, List, [], ◌∷◌, ◌++◌, ltb, length,
  if◌then◌else◌, Str, str_eq, Result, ok, err, ◌>>=◌, ◌>>◌, bail_if,
}
use backup_sync.Prelude.Int.{ℤ}
use backup_sync.Map.{Map, get, contains_key, str_key}
use backup_sync.Codec.Encode.{sat_add}
use backup_sync.Versioned.Model.{VersionInfo, VersionIndex, ManifestEntry, Manifest, is_file}
use backup_sync.Versioned.Validation.{IndexError, validate_version_id, validate_version_index}
use backup_sync.Versioned.Disk.{
  Disk, Hashing, source_of, IndexFile, absent, corrupt, index_file, blob_path, blob_exists,
}
use backup_sync.Versioned.Compare.{WatchedKind, file, directory, WatchedPath}
use backup_sync.Versioned.Cycle.{Destination, Stores, disk_of, find_destination}
use backup_sync.Versioned.Restore.{
  Missing, no_sha256, no_blob, RestoreError, unsafe_version_id, not_configured,
  not_a_watched_directory, missing_destination, missing_target_dir, manifest_unreadable,
  index_unreadable, unsafe_index, missing_content, insufficient_space, below_minimum, Component,
  root_dir, cur_dir, parent_dir, normal, components, validate_manifest,
}
use backup_sync.Versioned.Restore.Request.{
  RestoreMode, in_place, to_directory, is_in_place, RestoreRequest, RestoreResult, PlannedFile,
  RestoreConfig, component_eq, components_eq, path_eq, find_watched, first_destination,
  or_not_configured, require_directory, or_missing, destination_root_for_source, version_id_checked,
  parsed_manifest, root_of, restore_root,
}

-- What `preflight_restore` has found so far: what is missing, what is planned, and its bytes.
pub record Preflight : Type 0 where
  pub missing : List Missing
  pub planned : List PlannedFile
  pub total_bytes : ℕ

abbrev pub miss : Missing → Preflight → Preflight
miss m s = record s { missing = s.missing ++ m ∷ [] }

abbrev pub no_preflight : Preflight
no_preflight = record { missing = []; planned = []; total_bytes = 0 }

abbrev pub or_missing_content : Preflight → Result RestoreError Preflight
or_missing_content s = elim s.missing [ [] ↦ ok s | m ∷ ms ↦ err (missing_content (m ∷ ms)) ]

abbrev pub above_minimum : Option ℕ → ℕ → Result RestoreError (Unit {0})
above_minimum none free = ok tt
above_minimum (some min_free) free = bail_if (ltb free min_free) (below_minimum min_free free)

module _ (cfg : RestoreConfig) where
  unfoldable pub ensure_restore_free_space :
      Result RestoreError ℕ → ℕ → Result RestoreError (Unit {0})
  unfolding sat_add
  ensure_restore_free_space free_space required_bytes = do
    free ← free_space
    let needed = sat_add required_bytes cfg.free_space_safety_buffer_bytes
    bail_if (ltb free needed) (insufficient_space needed free)
    above_minimum cfg.min_free_space_bytes free

  module _ (hashing : Hashing) where
    unfoldable pub load_manifest_for_request :
        Stores → RestoreRequest → Result RestoreError (Manifest × Disk)
    unfolding destination_root_for_source validate_manifest
    load_manifest_for_request stores req = do
      version_id_checked (validate_version_id req.version_id)
      destination_root ← destination_root_for_source cfg req.source_path
      let store = disk_of stores destination_root
      manifest ←
          parsed_manifest req.version_id
            (get req.version_id (source_of store (hashing.sha256_hex req.source_path)).manifests)
      validate_manifest manifest
      ok (manifest, store)

    abbrev pub plan_hash : Disk → ManifestEntry → Option Str → Preflight → Preflight
    plan_hash store entry none s = miss (no_sha256 entry.rel_path) s
    plan_hash store entry (some hash) s =
        if blob_exists hashing store hash
        then record s {
          planned =
              s.planned
              ++ record {
                rel_path = entry.rel_path;
                blob_path = blob_path hashing hash;
                expected_sha256 = hash;
                mtime_unix = entry.mtime_unix;
                mtime_nanos = entry.mtime_nanos;
              }
                ∷ [];
          total_bytes = sat_add s.total_bytes entry.len;
        }
        else miss (no_blob entry.rel_path hash) s

    abbrev pub plan_entry : Disk → ManifestEntry → Preflight → Preflight
    plan_entry store entry s =
        if is_file entry.kind then plan_hash store entry entry.sha256 s else s

    unfoldable pub plan_entries : Disk → Map Str ManifestEntry → Preflight → Preflight
    unfolding sat_add
    plan_entries store [] s = s
    plan_entries store ((key, entry) ∷ entries) s =
        plan_entries store entries (plan_entry store entry s)

    unfoldable pub preflight_restore :
        Disk → Result RestoreError ℕ → Manifest → Result RestoreError (List PlannedFile × ℕ)
    unfolding plan_entries ensure_restore_free_space
    preflight_restore store free_space manifest = do
      s ← or_missing_content (plan_entries store manifest.entries no_preflight)
      ensure_restore_free_space free_space s.total_bytes
      ok (s.planned, s.total_bytes)

    -- `index.json` of a source, for `list_versions`.
    abbrev pub listed : Str → IndexFile → Result RestoreError (List VersionInfo)
    listed path absent = ok []
    listed path corrupt = err (index_unreadable path)
    listed path (index_file index) = elim (validate_version_index index) [
      | ok u ↦ ok index.versions
      | err e ↦ err (unsafe_index e)
    ]

    -- The versions of one watched directory, before those of the others.
    abbrev pub list_at :
        Stores
        → WatchedPath
        → Result RestoreError (List (Str × List VersionInfo))
        → Result RestoreError (List (Str × List VersionInfo))
    list_at stores w rest = do
      d ← or_missing w.destination_id (find_destination w.destination_id cfg.destinations)
      versions ← listed w.path (source_of (disk_of stores d.path) (hashing.sha256_hex w.path)).index
      out ← rest
      ok ((w.path, versions) ∷ out)

    abbrev pub is_directory : WatchedKind → Bool
    is_directory directory = true
    is_directory file = false

    unfoldable pub list_watched :
        Stores → List WatchedPath → Result RestoreError (List (Str × List VersionInfo))
    unfolding find_destination
    list_watched stores [] = ok []
    list_watched stores (w ∷ ws) =
        let rest = list_watched stores ws in
        if w.enabled && is_directory w.kind then list_at stores w rest else rest

    unfoldable pub list_versions : Stores → Result RestoreError (List (Str × List VersionInfo))
    unfolding list_watched
    list_versions stores = list_watched stores cfg.watched
