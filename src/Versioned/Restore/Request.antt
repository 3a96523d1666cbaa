-- ===== src/Versioned/Restore/Request.antt =====
-- What a restore of crates/core/src/backup/versioned/restore.rs is asked for, and the configured
-- destination of its source.
use backup_sync.Prelude.{
  ℕ, Bool, true, false, ◌&&◌, Option, none, some, List, [], ◌∷◌, if◌then◌else◌, Str, str_eq, Result,
  ok, err, ◌>>=◌, ◌>>◌,
}
use backup_sync.Prelude.Int.{ℤ}
use backup_sync.Map.{str_key}
use backup_sync.Versioned.Model.{Manifest}
use backup_sync.Versioned.Validation.{IndexError}
use backup_sync.Versioned.Compare.{WatchedKind, file, directory, WatchedPath}
use backup_sync.Versioned.Cycle.{Destination}
use backup_sync.Versioned.Restore.{
  RestoreError, unsafe_version_id, not_configured, not_a_watched_directory, missing_destination,
  missing_target_dir, manifest_unreadable, Component, root_dir, cur_dir, parent_dir, normal,
  components,
}

pub data RestoreMode : Type 0 where
  in_place to_directory : RestoreMode

abbrev pub is_in_place : RestoreMode → Bool
is_in_place in_place = true
is_in_place to_directory = false

pub record RestoreRequest : Type 0 where
  pub source_path : Str
  pub version_id : Str
  pub mode : RestoreMode
  pub target_dir : Option Str

pub record RestoreResult : Type 0 where
  pub files_written : ℕ
  pub files_removed : ℕ
  pub dirs_created : ℕ

pub record PlannedFile : Type 0 where
  pub rel_path : Str
  pub blob_path : Str × Str
  pub expected_sha256 : Str
  pub mtime_unix : ℤ
  pub mtime_nanos : ℕ

-- The parts of the configuration that a restore reads.
pub record RestoreConfig : Type 0 where
  pub watched : List WatchedPath
  pub destinations : List Destination
  pub free_space_safety_buffer_bytes : ℕ
  pub min_free_space_bytes : Option ℕ

abbrev pub component_eq : Component → Component → Bool
component_eq root_dir root_dir = true
component_eq cur_dir cur_dir = true
component_eq parent_dir parent_dir = true
component_eq (normal v) (normal w) = str_eq v w
component_eq _ _ = false

abbrev pub components_eq : List Component → List Component → Bool
components_eq [] [] = true
components_eq (c ∷ cs) (d ∷ ds) = component_eq c d && components_eq cs ds
components_eq _ _ = false

-- `PartialEq` of `Path`, which goes by the components.
unfoldable pub path_eq : Str → Str → Bool
unfolding components
path_eq a b = components_eq (components a) (components b)

unfoldable pub find_watched : Str → List WatchedPath → Option WatchedPath
unfolding path_eq
find_watched source_path [] = none
find_watched source_path (w ∷ ws) =
    let rest = find_watched source_path ws in
    if w.enabled && path_eq w.path source_path then some w else rest

-- The first destination of the id.
unfoldable pub first_destination : Str → List Destination → Option Destination
first_destination id [] = none
first_destination id (d ∷ ds) =
    let rest = first_destination id ds in if str_eq d.id id then some d else rest

abbrev pub or_not_configured : Str → Option WatchedPath → Result RestoreError WatchedPath
or_not_configured source_path none = err (not_configured source_path)
or_not_configured source_path (some w) = ok w

abbrev pub require_directory : Str → WatchedKind → Result RestoreError (Unit {0})
require_directory path file = err (not_a_watched_directory path)
require_directory path directory = ok tt

abbrev pub or_missing : Str → Option Destination → Result RestoreError Destination
or_missing id none = err (missing_destination id)
or_missing id (some d) = ok d

unfoldable pub destination_root_for_source : RestoreConfig → Str → Result RestoreError Str
unfolding find_watched first_destination
destination_root_for_source cfg source_path = do
  watched ← or_not_configured source_path (find_watched source_path cfg.watched)
  require_directory watched.path watched.kind
  d ← or_missing watched.destination_id (first_destination watched.destination_id cfg.destinations)
  ok d.path

abbrev pub version_id_checked : Result IndexError (Unit {0}) → Result RestoreError (Unit {0})
version_id_checked (ok u) = ok u
version_id_checked (err e) = err (unsafe_version_id e)

-- The manifest file of a version: absent, or not a manifest, or a manifest.
abbrev pub parsed_manifest : Str → Option (Option Manifest) → Result RestoreError Manifest
parsed_manifest id (some (some manifest)) = ok manifest
parsed_manifest id _ = err (manifest_unreadable id)

abbrev pub root_of : Str → RestoreMode → Option Str → Result RestoreError Str
root_of source_path in_place target_dir = ok source_path
root_of source_path to_directory none = err missing_target_dir
root_of source_path to_directory (some dir) = ok dir

unfoldable pub restore_root : RestoreRequest → Result RestoreError Str
restore_root req = root_of req.source_path req.mode req.target_dir
