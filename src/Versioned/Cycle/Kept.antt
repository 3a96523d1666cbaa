-- ===== src/Versioned/Cycle/Kept.antt =====
-- `run_backup_cycle` (store.rs) and what the stores are restored from.
use mathlib.Core.Path.{subst}
use backup_sync.Prelude.{
  ℕ, ◌≡◌, refl, sym, Bool, true, false, Option, none, some, List, [], ◌∷◌, if◌then◌else◌, Str,
  str_eq, Result, ok, err, ◌>>=◌, ◌>>◌, is_ok, In, Bool-cases, inl, inr, arith, ◌∙◌, ap,
}
use backup_sync.Map.{get, insert, str_key, get-insert}
use backup_sync.Versioned.Disk.{Disk, StoreError, Hashing, is_lower_hex_sha256}
use backup_sync.Versioned.Compare.{WatchedPath}
use backup_sync.Versioned.Baseline.{F64}
use backup_sync.Versioned.Folder.{FolderBackupResult}
use backup_sync.Versioned.Commit.Store.{StoreOk}
use backup_sync.Versioned.Commit.Backup.{backup_one_folder-StoreOk}
use backup_sync.Versioned.Cycle.{
  Destination, CycleConfig, BackupCycleResult, CycleIo, Stores, empty_disk, or_empty, disk_of,
  find_destination, enabled_destinations, destination_or, add_folder, no_cycle, backup_watched,
  folder_result, next_folder, backup_at, backup_folders, prepare_cycle, preflight_space,
  start_cycle, run_backup_cycle, keep_versions_of,
}

-- Each store can be restored from.
abbrev pub AllStoresOk : Hashing → Stores → Type 0
AllStoresOk hashing stores = (path : Str) (d : Disk) → get path stores ≡ some d → StoreOk hashing d

empty-StoreOk : (hashing : Hashing) → StoreOk hashing empty_disk
unfolding get
empty-StoreOk hashing = record { blobs = λ k b p. absurd p; sources = λ id s p. cc }

found-StoreOk :
    (hashing : Hashing) (stores : Stores) (path : Str) (found : Option Disk)
    → AllStoresOk hashing stores
    → get path stores ≡ found
    → StoreOk hashing (or_empty found)
found-StoreOk hashing stores path none h q = empty-StoreOk hashing
found-StoreOk hashing stores path (some d) h q = h path d q

insert-AllStoresOk :
    (hashing : Hashing) (stores : Stores) (path : Str) (d : Disk)
    → AllStoresOk hashing stores
    → StoreOk hashing d
    → AllStoresOk hashing (insert path d stores)
insert-AllStoresOk hashing stores path d h new p e q =
    let r = sym (get-insert path p d stores) ∙ q in
    elim (Bool-cases (str_eq path p)) [
      | inl same ↦ let it : d ≡ e = ground (arith, r, same) in subst (StoreOk hashing) it new
      | inr other ↦ h p e (ground (arith, r, other))
    ]

unresolved :
    (destinations : List Destination) (watched : List WatchedPath) (w : WatchedPath)
    → In w watched
    → w.enabled ≡ true
    → find_destination w.destination_id destinations ≡ none
    → is_ok (enabled_destinations destinations watched) ≡ false
unfolding enabled_destinations
unresolved destinations [] w place enabled missing = absurd place
unresolved destinations (x ∷ watched) w (inl here) enabled missing =
    let on : x.enabled ≡ true = sym (ap (λ (t : WatchedPath). t.enabled) here) ∙ enabled in
    let gone : find_destination x.destination_id destinations ≡ none =
      sym (ap (λ (t : WatchedPath). find_destination t.destination_id destinations) here)
      ∙ missing in
    rw (on, gone) refl
unresolved destinations (x ∷ watched) w (inr later) enabled missing =
    let rest = unresolved destinations watched w later enabled missing in
    elim (Bool-cases x.enabled) [
      | inr off ↦ rw off rest
      | inl on ↦ rw on (
          failed (destination_or x.destination_id (find_destination x.destination_id destinations))
            (enabled_destinations destinations watched) rest)
    ]
  where
    failed :
        (r : Result StoreError Destination) (s : Result StoreError (List Destination))
        → is_ok s ≡ false
        → is_ok (r >>= (λ d. s >>= λ ds. ok (d ∷ ds))) ≡ false
    failed (err e) s h = refl
    failed (ok d) (err e) h = refl
    failed (ok d) (ok ds) h = absurd (ground (arith, h))

module _ (hashing : Hashing) (f64 : F64) (cfg : CycleConfig) (threshold : f64.F)
    (io : CycleIo) where
  -- If the destination of an enabled watched path is not configured, the cycle fails and no store
  -- is touched, not even those of the paths before it.
  pub run_backup_cycle_unresolved :
      (w : WatchedPath) (stores : Stores)
      → In w cfg.watched
      → w.enabled ≡ true
      → find_destination w.destination_id cfg.destinations ≡ none
      → (is_ok (run_backup_cycle hashing f64 cfg threshold io stores).0 ≡ false)
        × ((run_backup_cycle hashing f64 cfg threshold io stores).1 ≡ stores)
  unfolding run_backup_cycle prepare_cycle
  run_backup_cycle_unresolved w stores place enabled missing =
      started (enabled_destinations cfg.destinations cfg.watched)
        (unresolved cfg.destinations cfg.watched w place enabled missing)
    where
      started :
          (r : Result StoreError (List Destination))
          → is_ok r ≡ false
          → let s =
              start_cycle hashing f64 cfg threshold io
                (r >>= λ ds.
                  (preflight_space hashing f64 cfg threshold io cfg.min_free_space_bytes ds
                    >> (io.leases >> io.codec)))
                stores in
            (is_ok s.0 ≡ false) × (s.1 ≡ stores)
      started (err e) h = (refl, refl)
      started (ok ds) h = absurd (ground (arith, h))

  -- The digests that `hashing::sha256_file` gives name blobs.
  module _
      (hex : (w : WatchedPath) (path : Str) (i : ℕ) (h : Str)
        → (io.folder w).view.sha256_file path i ≡ ok h
        → is_lower_hex_sha256 h ≡ true) where
    backup_at-AllStoresOk :
        (go : BackupCycleResult → Stores → Result StoreError BackupCycleResult × Stores)
        (w : WatchedPath) (cycle : BackupCycleResult) (stores : Stores) (found : Option Destination)
        → ((c : BackupCycleResult) (s : Stores)
            → AllStoresOk hashing s
            → AllStoresOk hashing (go c s).1)
        → AllStoresOk hashing stores
        → AllStoresOk hashing (backup_at hashing f64 cfg threshold io go w cycle stores found).1
    unfolding backup_watched
    backup_at-AllStoresOk go w cycle stores none ih h = h
    backup_at-AllStoresOk go w cycle stores (some d) ih h =
        let r = backup_watched hashing f64 cfg threshold io w d (disk_of stores d.path) in
        let after =
          backup_one_folder-StoreOk hashing f64 cfg.scan threshold w.kind w.path
            (io.file_name w.path) (hashing.sha256_hex w.path)
            (keep_versions_of hashing f64 cfg threshold io w d) (io.folder w) (hex w)
            (disk_of stores d.path)
            (found-StoreOk hashing stores d.path (get d.path stores) h refl) in
        next (folder_result hashing f64 cfg threshold io w r.0) (insert d.path r.1 stores)
          (insert-AllStoresOk hashing stores d.path r.1 h after)
      where
        next :
            (r : Result StoreError FolderBackupResult) (s : Stores)
            → AllStoresOk hashing s
            → AllStoresOk hashing (next_folder hashing f64 cfg threshold io go cycle r s).1
        next (err e) s k = k
        next (ok x) s k = ih (add_folder x cycle) s k

    backup_folders-AllStoresOk :
        (watched : List WatchedPath) (cycle : BackupCycleResult) (stores : Stores)
        → AllStoresOk hashing stores
        → AllStoresOk hashing (backup_folders hashing f64 cfg threshold io watched cycle stores).1
    unfolding backup_folders
    backup_folders-AllStoresOk [] cycle stores h = h
    backup_folders-AllStoresOk (w ∷ watched) cycle stores h =
        choose w.enabled
          (backup_at hashing f64 cfg threshold io
            (λ c s. backup_folders hashing f64 cfg threshold io watched c s) w cycle stores
            (find_destination w.destination_id cfg.destinations))
          (backup_folders hashing f64 cfg threshold io watched cycle stores)
          (backup_at-AllStoresOk (λ c s. backup_folders hashing f64 cfg threshold io watched c s) w
            cycle stores (find_destination w.destination_id cfg.destinations)
            (λ c s k. backup_folders-AllStoresOk watched c s k) h)
          (backup_folders-AllStoresOk watched cycle stores h)
      where
        choose :
            (enabled : Bool) (x y : Result StoreError BackupCycleResult × Stores)
            → AllStoresOk hashing x.1
            → AllStoresOk hashing y.1
            → AllStoresOk hashing (if enabled then x else y).1
        choose true x y a b = a
        choose false x y a b = b

    -- Where `hashing::sha256_file` gives only digests in lower-case hex, a cycle over stores that
    -- can be restored from leaves each of them so, whatever fails and at whichever folder it stops.
    pub run_backup_cycle-AllStoresOk :
        (stores : Stores)
        → AllStoresOk hashing stores
        → AllStoresOk hashing (run_backup_cycle hashing f64 cfg threshold io stores).1
    unfolding run_backup_cycle
    run_backup_cycle-AllStoresOk stores h = started (prepare_cycle hashing f64 cfg threshold io)
      where
        started :
            (r : Result StoreError (Unit {0}))
            → AllStoresOk hashing (start_cycle hashing f64 cfg threshold io r stores).1
        started (err e) = h
        started (ok u) = backup_folders-AllStoresOk cfg.watched no_cycle stores h
