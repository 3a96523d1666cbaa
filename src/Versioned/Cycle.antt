-- ===== src/Versioned/Cycle.antt =====
-- `run_backup_cycle` of crates/core/src/backup/versioned/store.rs: a cycle over the enabled watched
-- paths.
pub mod Kept
pub mod Accounts
use backup_sync.Prelude.{
  ℕ, zero, suc, ◌+◌, Bool, true, false, Option, none, some, List, [], ◌∷◌, ◌++◌, if◌then◌else◌, Str,
  str_eq, ltb, Result, ok, err, ◌>>=◌, ◌>>◌, any,
}
use backup_sync.Map.{Map, get, insert, str_key}
use backup_sync.Versioned.Disk.{Disk, StoreError, Hashing, missing_destination, below_minimum}
use backup_sync.Versioned.Compare.{WatchedKind, WatchedPath}
use backup_sync.Versioned.Scan.{ScanConfig}
use backup_sync.Versioned.Baseline.{F64, SafetyWarning}
use backup_sync.Versioned.Commit.{backup_one_folder}
use backup_sync.Versioned.Folder.{FolderIo, FolderBackupResult}

pub record Destination : Type 0 where
  pub id : Str
  pub path : Str
  pub max_backups_per_file : Option ℕ

pub record CycleConfig : Type 0 where
  pub watched : List WatchedPath
  pub destinations : List Destination
  pub max_backups_per_file : ℕ
  pub min_free_space_bytes : Option ℕ
  pub scan : ScanConfig

pub record BackupCycleResult : Type 0 where
  pub folders_scanned : ℕ
  pub versions_created : ℕ
  pub blobs_written : ℕ
  pub bytes_written : ℕ
  pub safety_warnings : List SafetyWarning

-- What the machine answers during a cycle.
pub record CycleIo : Type 0 where
  pub free_space : Str → Result StoreError ℕ
  -- `fs::canonicalize`, or the path itself.
  pub canonical : Str → Str
  pub leases : Result StoreError (Unit {0})
  pub codec : Result StoreError (Unit {0})
  pub folder : WatchedPath → FolderIo
  -- `sync_source_readable_view`
  pub readable_view : WatchedPath → Result StoreError (Unit {0})
  pub file_name : Str → Str

-- The stores by the path of their destination.
abbrev pub Stores : Type 0
Stores = Map Str Disk

abbrev pub empty_disk : Disk
empty_disk = record { sources_exist = false; sources = []; blobs = [] }

abbrev pub or_empty : Option Disk → Disk
or_empty none = empty_disk
or_empty (some d) = d

abbrev pub disk_of : Stores → Str → Disk
disk_of stores path = or_empty (get path stores)

-- The map that is collected from the destinations holds the last of an id.
unfoldable pub find_destination : Str → List Destination → Option Destination
find_destination id [] = none
find_destination id (d ∷ ds) = elim (find_destination id ds) [
  | some later ↦ some later
  | none ↦ if str_eq d.id id then some d else none
]

abbrev pub destination_or : Str → Option Destination → Result StoreError Destination
destination_or id none = err (missing_destination id)
destination_or id (some d) = ok d

-- The loop that resolves every destination before the first lease.
unfoldable pub enabled_destinations :
    List Destination → List WatchedPath → Result StoreError (List Destination)
enabled_destinations destinations [] = ok []
enabled_destinations destinations (w ∷ ws) =
    let rest = enabled_destinations destinations ws in
    if w.enabled
    then destination_or w.destination_id (find_destination w.destination_id destinations)
      >>= (λ d. rest >>= λ ds. ok (d ∷ ds))
    else rest

abbrev pub ensure_free : Str → ℕ → Result StoreError ℕ → Result StoreError (Unit {0})
ensure_free path minimum (err e) = err e
ensure_free path minimum (ok free) =
    if ltb free minimum then err (below_minimum path free minimum) else ok tt

abbrev pub or_default : Option ℕ → ℕ → ℕ
or_default none n = n
or_default (some m) n = m

abbrev pub warnings_of : Option SafetyWarning → List SafetyWarning
warnings_of none = []
warnings_of (some w) = w ∷ []

abbrev pub one_if : Bool → ℕ
one_if true = 1
one_if false = 0

abbrev pub add_folder : FolderBackupResult → BackupCycleResult → BackupCycleResult
add_folder r cycle = record {
  folders_scanned = cycle.folders_scanned + 1;
  versions_created = cycle.versions_created + one_if r.changed;
  blobs_written = cycle.blobs_written + r.blobs_written;
  bytes_written = cycle.bytes_written + r.bytes_written;
  safety_warnings = cycle.safety_warnings ++ warnings_of r.safety_warning;
}

abbrev pub no_cycle : BackupCycleResult
no_cycle = record {
  folders_scanned = 0;
  versions_created = 0;
  blobs_written = 0;
  bytes_written = 0;
  safety_warnings = [];
}

module _ (hashing : Hashing) (f64 : F64) (cfg : CycleConfig) (threshold : f64.F)
    (io : CycleIo) where
  unfoldable pub ensure_destination_free_space : Str → ℕ → Result StoreError (Unit {0})
  ensure_destination_free_space path minimum = ensure_free path minimum (io.free_space path)

  -- Each canonical path is checked once.
  unfoldable pub check_free_space : ℕ → List Str → List Destination → Result StoreError (Unit {0})
  unfolding ensure_destination_free_space
  check_free_space minimum checked [] = ok tt
  check_free_space minimum checked (d ∷ ds) =
      let path = io.canonical d.path in
      let rest = check_free_space minimum (path ∷ checked) ds in
      let skip = check_free_space minimum checked ds in
      if any (λ x. str_eq x path) checked
      then skip
      else ensure_destination_free_space d.path minimum >> rest

  abbrev pub preflight_space : Option ℕ → List Destination → Result StoreError (Unit {0})
  preflight_space none ds = ok tt
  preflight_space (some minimum) ds = check_free_space minimum [] ds

  abbrev pub keep_versions_of : WatchedPath → Destination → ℕ
  keep_versions_of w d =
      or_default w.max_backups_per_file (or_default d.max_backups_per_file cfg.max_backups_per_file)

  unfoldable pub backup_watched :
      WatchedPath → Destination → Disk → Result StoreError FolderBackupResult × Disk
  backup_watched w d disk =
      backup_one_folder hashing f64 cfg.scan threshold w.kind w.path (io.file_name w.path)
        (hashing.sha256_hex w.path) (keep_versions_of w d) (io.folder w) disk

  -- `Continue` with the folder's result, unless it or its readable view failed.
  abbrev pub folder_result :
      WatchedPath → Result StoreError FolderBackupResult → Result StoreError FolderBackupResult
  folder_result w (err e) = err e
  folder_result w (ok r) = io.readable_view w >>= λ u. ok r

  abbrev pub next_folder :
      (BackupCycleResult → Stores → Result StoreError BackupCycleResult × Stores)
      → BackupCycleResult
      → Result StoreError FolderBackupResult
      → Stores
      → Result StoreError BackupCycleResult × Stores
  next_folder go cycle (err e) stores = (err e, stores)
  next_folder go cycle (ok r) stores = go (add_folder r cycle) stores

  abbrev pub backup_at :
      (BackupCycleResult → Stores → Result StoreError BackupCycleResult × Stores)
      → WatchedPath
      → BackupCycleResult
      → Stores
      → Option Destination
      → Result StoreError BackupCycleResult × Stores
  backup_at go w cycle stores none = (err (missing_destination w.destination_id), stores)
  backup_at go w cycle stores (some d) =
      let r = backup_watched w d (disk_of stores d.path) in
      next_folder go cycle (folder_result w r.0) (insert d.path r.1 stores)

  unfoldable pub backup_folders :
      List WatchedPath → BackupCycleResult → Stores → Result StoreError BackupCycleResult × Stores
  unfolding backup_watched find_destination
  backup_folders [] cycle stores = (ok cycle, stores)
  backup_folders (w ∷ ws) cycle stores =
      if w.enabled
      then backup_at (λ c s. backup_folders ws c s) w cycle stores
          (find_destination w.destination_id cfg.destinations)
      else backup_folders ws cycle stores

  -- What is checked before any folder is touched.
  unfoldable pub prepare_cycle : Result StoreError (Unit {0})
  unfolding enabled_destinations check_free_space
  prepare_cycle = do
    ds ← enabled_destinations cfg.destinations cfg.watched
    preflight_space cfg.min_free_space_bytes ds
    io.leases
    io.codec

  abbrev pub start_cycle :
      Result StoreError (Unit {0}) → Stores → Result StoreError BackupCycleResult × Stores
  start_cycle (err e) stores = (err e, stores)
  start_cycle (ok u) stores = backup_folders cfg.watched no_cycle stores

  unfoldable pub run_backup_cycle : Stores → Result StoreError BackupCycleResult × Stores
  unfolding prepare_cycle backup_folders
  run_backup_cycle stores = start_cycle prepare_cycle stores
