-- ===== src/Versioned/Cycle/Accounts.antt =====
-- What a cycle reports.
use backup_sync.Prelude.{
  ℕ, ◌+◌, ◌≤◌, ◌≡◌, Bool, true, false, Option, none, some, List, [], ◌∷◌, if◌then◌else◌, Result, ok,
  err, Bool-cases, inl, inr, arith, length, filter,
}
use backup_sync.Map.{insert, str_key}
use backup_sync.Versioned.Disk.{Hashing, StoreError}
use backup_sync.Versioned.Compare.{WatchedPath}
use backup_sync.Versioned.Baseline.{F64}
use backup_sync.Versioned.Folder.{FolderBackupResult}
use backup_sync.Versioned.Cycle.{
  Destination, CycleConfig, BackupCycleResult, CycleIo, Stores, disk_of, find_destination,
  add_folder, no_cycle, backup_watched, folder_result, next_folder, backup_at, backup_folders,
  prepare_cycle, start_cycle, run_backup_cycle,
}

-- The counts after some more folders.
record IsAccount (folders : ℕ) (before after : BackupCycleResult) : Type 0 where
  scanned : after.folders_scanned ≡ before.folders_scanned + folders
  created : after.versions_created ≤ before.versions_created + folders
  kept : before.versions_created ≤ after.versions_created

IsAccount-step :
    (folders : ℕ) (r : FolderBackupResult) (before after : BackupCycleResult)
    → IsAccount folders (add_folder r before) after
    → IsAccount (folders + 1) before after
IsAccount-step folders r before after a = elim (Bool-cases r.changed) [
  | inl new ↦
      let h = a.scanned in
      let c = rw new at a.created in
      let k = rw new at a.kept in
      record { scanned = omega (arith, h); created = omega (arith, c); kept = omega (arith, k) }
  | inr same ↦
      let h = a.scanned in
      let c = rw same at a.created in
      let k = rw same at a.kept in
      record { scanned = omega (arith, h); created = omega (arith, c); kept = omega (arith, k) }
]

module _ (hashing : Hashing) (f64 : F64) (cfg : CycleConfig) (threshold : f64.F)
    (io : CycleIo) where
  backup_at-IsAccount :
      (go : BackupCycleResult → Stores → Result StoreError BackupCycleResult × Stores)
      (w : WatchedPath) (cycle after : BackupCycleResult) (stores : Stores)
      (found : Option Destination) (folders : ℕ)
      → ((c : BackupCycleResult) (s : Stores) → (go c s).0 ≡ ok after → IsAccount folders c after)
      → (backup_at hashing f64 cfg threshold io go w cycle stores found).0 ≡ ok after
      → IsAccount (folders + 1) cycle after
  backup_at-IsAccount go w cycle after stores none folders ih p = cc
  backup_at-IsAccount go w cycle after stores (some d) folders ih p =
      let r = backup_watched hashing f64 cfg threshold io w d (disk_of stores d.path) in
      next (folder_result hashing f64 cfg threshold io w r.0) (insert d.path r.1 stores) p
    where
      next :
          (r : Result StoreError FolderBackupResult) (s : Stores)
          → (next_folder hashing f64 cfg threshold io go cycle r s).0 ≡ ok after
          → IsAccount (folders + 1) cycle after
      next (err e) s q = cc
      next (ok x) s q = IsAccount-step folders x cycle after (ih (add_folder x cycle) s q)

  backup_folders-IsAccount :
      (watched : List WatchedPath) (cycle after : BackupCycleResult) (stores : Stores)
      → (backup_folders hashing f64 cfg threshold io watched cycle stores).0 ≡ ok after
      → IsAccount (length (filter (λ w. w.enabled) watched)) cycle after
  unfolding backup_folders
  backup_folders-IsAccount [] cycle after stores p =
      let same : cycle ≡ after = ground arith in
      rw same (record { scanned = omega arith; created = omega arith; kept = omega arith })
  backup_folders-IsAccount (w ∷ watched) cycle after stores p =
      choose w.enabled
        (backup_at hashing f64 cfg threshold io
          (λ c s. backup_folders hashing f64 cfg threshold io watched c s) w cycle stores
          (find_destination w.destination_id cfg.destinations))
        (backup_folders hashing f64 cfg threshold io watched cycle stores)
        (backup_at-IsAccount (λ c s. backup_folders hashing f64 cfg threshold io watched c s) w
          cycle after stores (find_destination w.destination_id cfg.destinations)
          (length (filter (λ v. v.enabled) watched))
          (λ c s. backup_folders-IsAccount watched c after s))
        (backup_folders-IsAccount watched cycle after stores) p
    where
      choose :
          (enabled : Bool) (x y : Result StoreError BackupCycleResult × Stores)
          → (x.0 ≡ ok after → IsAccount (length (filter (λ v. v.enabled) watched) + 1) cycle after)
          → (y.0 ≡ ok after → IsAccount (length (filter (λ v. v.enabled) watched)) cycle after)
          → (if enabled then x else y).0 ≡ ok after
          → IsAccount
              (length (
                if enabled
                then w ∷ filter (λ v. v.enabled) watched
                else filter (λ v. v.enabled) watched))
              cycle
              after
      choose true x y a b q =
          let r = a q in
          record {
            scanned = omega (arith, r.scanned);
            created = omega (arith, r.created);
            kept = r.kept;
          }
      choose false x y a b q = b q

  -- If a cycle ends, it has scanned as many folders as are enabled, and has created at most that
  -- many versions.
  pub run_backup_cycle-accounts :
      (stores : Stores) (cycle : BackupCycleResult)
      → (run_backup_cycle hashing f64 cfg threshold io stores).0 ≡ ok cycle
      → (cycle.folders_scanned ≡ length (filter (λ w. w.enabled) cfg.watched))
        × (cycle.versions_created ≤ cycle.folders_scanned)
  unfolding run_backup_cycle
  run_backup_cycle-accounts stores cycle p = started (prepare_cycle hashing f64 cfg threshold io) p
    where
      started :
          (r : Result StoreError (Unit {0}))
          → (start_cycle hashing f64 cfg threshold io r stores).0 ≡ ok cycle
          → (cycle.folders_scanned ≡ length (filter (λ w. w.enabled) cfg.watched))
            × (cycle.versions_created ≤ cycle.folders_scanned)
      started (err e) q = cc
      started (ok u) q =
          let a = backup_folders-IsAccount cfg.watched no_cycle cycle stores q in
          (omega (arith, a.scanned), omega (arith, a.scanned, a.created))
