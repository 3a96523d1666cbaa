-- ===== src/Versioned/Restore/Version.antt =====
-- `restore_version` of crates/core/src/backup/versioned/restore.rs, with `count_extraneous_files`, and
-- `build_version_tree_from_store`.
pub mod Whole
pub mod Decodes
pub mod Needs
pub mod Available
pub mod Reach
use backup_sync.Prelude.{
  ℕ, ◌+◌, Bool, true, false, not, ◌&&◌, Option, none, some, List, [], ◌∷◌, ◌++◌, if◌then◌else◌, any,
  Str, str_eq, Result, ok, err, ◌>>=◌, ◌>>◌, bail_if,
}
use backup_sync.Map.{Map, get, str_key}
use backup_sync.Codec.Blob.{BlobCipher, BlobCodec, KeyError}
use backup_sync.Versioned.Model.{ManifestEntry, Manifest, is_file}
use backup_sync.Versioned.Validation.{validate_version_id}
use backup_sync.Versioned.Disk.{Disk, Hashing, source_of}
use backup_sync.Versioned.Scan.{replace_backslash}
use backup_sync.Versioned.Cycle.{Stores, disk_of}
use backup_sync.Versioned.Restore.{
  RestoreError, root_not_a_directory, stage_exists, manifest_of_another_source, no_key, refused,
  validate_manifest, Places, SwapIo, swap_staged_tree_into_place,
}
use backup_sync.Versioned.Restore.Plan.{load_manifest_for_request, preflight_restore}
use backup_sync.Versioned.Restore.Request.{
  RestoreMode, is_in_place, RestoreRequest, RestoreResult, PlannedFile, RestoreConfig,
  destination_root_for_source, version_id_checked, parsed_manifest, restore_root,
}
use backup_sync.Versioned.Restore.Tree.{
  Place, place_key, Node, directory, other, regular, FileTree, TreeIo,
}
use backup_sync.Versioned.Restore.Build.{BlobReads, build_restore_tree}
use backup_sync.Versioned.Restore.Machine.{
  RestoreIo, walked, is_expected, count_node, count_from, count_extraneous_files, is_directory,
  is_blocked, stands, with_key, removed_by, Prepared, left_of,
}

module _ (cfg : RestoreConfig) (hashing : Hashing) (reads : BlobReads) (stores : Stores)
    (io : RestoreIo) where
  unfoldable pub prepare : RestoreRequest → Places FileTree → Result RestoreError Prepared
  unfolding destination_root_for_source load_manifest_for_request restore_root preflight_restore
      count_extraneous_files
  prepare req p = do
    version_id_checked (validate_version_id req.version_id)
    destination_root ← destination_root_for_source cfg req.source_path
    io.lease
    (manifest, store) ← load_manifest_for_request cfg hashing stores req
    root ← restore_root req
    bail_if (is_blocked p.target) root_not_a_directory
    bail_if io.parent_refused refused
    (planned, bytes) ← preflight_restore cfg hashing store io.free_space manifest
    codec ← with_key io.codec
    bail_if (stands p.stage) stage_exists
    files_removed ← removed_by io (is_in_place req.mode) p.target manifest.entries
    ok (record {
      manifest = manifest;
      store = store;
      planned = planned;
      cipher = codec.cipher;
      files_removed = files_removed;
    })

  -- The tree that was moved aside goes, if the restore is in place.
  abbrev pub remove_aside : Bool → Option FileTree → Places FileTree → Places FileTree
  remove_aside true (some old) p = record p { aside = io.aside_left old }
  remove_aside _ moved p = p

  abbrev pub after_swap :
      RestoreMode
      → RestoreResult
      → Result RestoreError (Option FileTree)
      → Places FileTree
      → Result RestoreError RestoreResult × Places FileTree
  after_swap mode result (err e) p = (err e, p)
  after_swap mode result (ok moved) p = (ok result, remove_aside (is_in_place mode) moved p)

  abbrev pub swap_in :
      RestoreMode
      → RestoreResult
      → Places FileTree
      → Result RestoreError RestoreResult × Places FileTree
  swap_in mode result p =
      after_swap mode result (swap_staged_tree_into_place io.swap p).0
        (swap_staged_tree_into_place io.swap p).1

  -- A tree that could not be built is removed.
  abbrev pub after_build :
      RestoreMode
      → ℕ
      → Places FileTree
      → Result RestoreError RestoreResult
      → FileTree
      → Result RestoreError RestoreResult × Places FileTree
  after_build mode removed p (err e) t =
      (err e, record p { stage = left_of io.stage_left t (get [] t) })
  after_build mode removed p (ok result) t =
      swap_in mode (record result { files_removed = removed }) (record p { stage = some t })

  abbrev pub build_and_swap :
      RestoreMode
      → Places FileTree
      → Result RestoreError Prepared
      → Result RestoreError RestoreResult × Places FileTree
  build_and_swap mode p (err e) = (err e, p)
  build_and_swap mode p (ok r) =
      let built =
        build_restore_tree io.tree reads r.store r.cipher r.manifest.entries r.planned [] in
      after_build mode r.files_removed p built.0 built.1

  -- The places are those beside the root that the request names.
  unfoldable pub restore_version :
      RestoreRequest → Places FileTree → Result RestoreError RestoreResult × Places FileTree
  unfolding prepare build_restore_tree swap_staged_tree_into_place
  restore_version req p = build_and_swap req.mode p (prepare req p)

  -- What `build_version_tree_from_store` reads and checks, without a lease.
  unfoldable pub prepare_version_tree :
      Str → Str → Str → Option FileTree → Result RestoreError Prepared
  unfolding preflight_restore validate_manifest
  prepare_version_tree destination_root source_path version_id stage = do
    version_id_checked (validate_version_id version_id)
    bail_if (stands stage) stage_exists
    let store = disk_of stores destination_root
    manifest ←
        parsed_manifest version_id
          (get version_id (source_of store (hashing.sha256_hex source_path)).manifests)
    validate_manifest manifest
    bail_if (not (str_eq manifest.source_path source_path))
        (manifest_of_another_source manifest.source_path)
    bail_if io.parent_refused refused
    (planned, bytes) ← preflight_restore cfg hashing store io.free_space manifest
    codec ← with_key io.codec
    ok (record {
      manifest = manifest;
      store = store;
      planned = planned;
      cipher = codec.cipher;
      files_removed = 0;
    })

  abbrev pub built_tree :
      Option FileTree
      → Result RestoreError Prepared
      → Result RestoreError RestoreResult × Option FileTree
  built_tree stage (err e) = (err e, stage)
  built_tree stage (ok r) =
      let built =
        build_restore_tree io.tree reads r.store r.cipher r.manifest.entries r.planned [] in
      (built.0, left_of (λ t. some t) built.1 (get [] built.1))

  -- The caller renames the tree into place, or removes it.
  unfoldable pub build_version_tree_from_store :
      Str → Str → Str → Option FileTree → Result RestoreError RestoreResult × Option FileTree
  unfolding prepare_version_tree build_restore_tree
  build_version_tree_from_store destination_root source_path version_id stage =
      built_tree stage (prepare_version_tree destination_root source_path version_id stage)
