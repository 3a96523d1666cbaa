-- ===== src/Tests/Store.antt =====
-- The theorems on the store, at the small source and machine.
use backup_sync.Prelude.{
  true, ◌≡◌, refl, false, Option, none, some, [], ◌∷◌, Str, codes, inl, is_ok,
}
use backup_sync.Map.{Map, get, contains_key, str_key, pair_key}
use backup_sync.Versioned.Model.{Manifest, ManifestEntry}
use backup_sync.Versioned.Disk.{Disk}
use backup_sync.Versioned.Compare.{WatchedKind}
use backup_sync.Versioned.Scan.Snapshot.{scan_entries}
use backup_sync.Versioned.Scan.Coherent.{scan_entries-IsCoherent}
use backup_sync.Versioned.Scan.Entries.{IsCoherent, nil-IsCoherent}
use backup_sync.Versioned.Blobs.{write_missing_blobs_for_snapshot}
use backup_sync.Versioned.Blobs.Backed.{Materialized, write_missing_blobs_for_snapshot-Materialized}
use backup_sync.Versioned.Blobs.Entries.{HasBlob}
use backup_sync.Versioned.Gc.{gc_unreferenced_blobs}
use backup_sync.Versioned.Commit.{backup_one_folder, candidate}
use backup_sync.Versioned.Folder.{fresh_version_id}
use backup_sync.Versioned.Commit.Store.{StoreOk}
use backup_sync.Versioned.Commit.Backup.{backup_one_folder-StoreOk}
use backup_sync.Versioned.Commit.Collect.{gc_unreferenced_blobs-StoreOk}
use backup_sync.Versioned.Commit.Fresh.{fresh_version_id-found}
use backup_sync.Versioned.Release.{ReleaseIo, remove_kept_safety_version}
use backup_sync.Versioned.Release.Kept.{remove_kept_safety_version-StoreOk}
use backup_sync.Versioned.Cycle.{CycleConfig, find_destination, empty_disk, run_backup_cycle}
use backup_sync.Versioned.Cycle.Kept.{
  AllStoresOk, run_backup_cycle-AllStoresOk, run_backup_cycle_unresolved,
}
use backup_sync.Versioned.Folder.{durable}
use backup_sync.Tests.Fixture.{
  digest, hashing, hundredths, scan, view, blob_io, gc_io, folder_io, view-hex, empty_disk-StoreOk,
  watched, cycle_config, cycle_io,
}

-- The store after a first backup whose index is in place but not synced.
abbrev first : Disk
first =
    (backup_one_folder hashing hundredths scan 50 WatchedKind.directory (codes "/home")
      (codes "home") digest 2 folder_io empty_disk).1

backup_one_folder-StoreOk_example : StoreOk hashing first
backup_one_folder-StoreOk_example =
    backup_one_folder-StoreOk hashing hundredths scan 50 WatchedKind.directory (codes "/home")
      (codes "home") digest 2 folder_io view-hex empty_disk empty_disk-StoreOk

-- The same store, for the theorems that start from one.
first-StoreOk : StoreOk hashing first
first-StoreOk =
    backup_one_folder-StoreOk hashing hundredths scan 50 WatchedKind.directory (codes "/home")
      (codes "home") digest 2 folder_io view-hex empty_disk empty_disk-StoreOk

gc_unreferenced_blobs-StoreOk_example : StoreOk hashing (gc_unreferenced_blobs gc_io first).1
gc_unreferenced_blobs-StoreOk_example =
    gc_unreferenced_blobs-StoreOk hashing gc_io first first-StoreOk

abbrev release_io : ReleaseIo
release_io = record { index = durable; removal_refused = true; gc = gc_io }

remove_kept_safety_version-StoreOk_example :
    StoreOk hashing (remove_kept_safety_version (codes "/home") digest release_io first).1
remove_kept_safety_version-StoreOk_example =
    remove_kept_safety_version-StoreOk hashing (codes "/home") digest release_io first first-StoreOk

scan_entries-IsCoherent_example :
    IsCoherent (scan_entries scan view none WatchedKind.directory (codes "home")).entries
scan_entries-IsCoherent_example =
    scan_entries-IsCoherent scan view none view-hex nil-IsCoherent WatchedKind.directory
      (codes "home")

-- The candidate of a source with one file.
abbrev snapshot : Manifest
snapshot =
    candidate hashing hundredths scan 50 WatchedKind.directory (codes "/home") (codes "home") digest
      2 folder_io none (none, none)

snapshot-IsCoherent : IsCoherent snapshot.entries
unfolding candidate
snapshot-IsCoherent =
    scan_entries-IsCoherent scan view none view-hex nil-IsCoherent WatchedKind.directory
      (codes "home")

nothing-backed : (k : Str) (e : ManifestEntry) → get k [] ≡ some e → HasBlob hashing empty_disk e
unfolding get
nothing-backed k e p = cc

write_missing_blobs_for_snapshot-Materialized_example :
    Materialized hashing blob_io 0 1 empty_disk none nil-IsCoherent nothing-backed
      (write_missing_blobs_for_snapshot hashing blob_io 0 1 none snapshot empty_disk)
write_missing_blobs_for_snapshot-Materialized_example =
    write_missing_blobs_for_snapshot-Materialized hashing blob_io 0 1 empty_disk none nil-IsCoherent
      nothing-backed snapshot (λ k b p. absurd p) snapshot-IsCoherent

abbrev taken : Map Str (Option Manifest)
taken = (codes "v1", none) ∷ []

fresh_version_id-found_example :
    (fresh : Str) × ((fresh_version_id taken (codes "v1") ≡ some fresh)
      × (contains_key fresh taken ≡ false))
fresh_version_id-found_example = fresh_version_id-found taken (codes "v1")

no_stores : (path : Str) (d : Disk) → get path [] ≡ some d → StoreOk hashing d
unfolding get
no_stores path d p = cc

run_backup_cycle-AllStoresOk_example :
    AllStoresOk hashing (run_backup_cycle hashing hundredths cycle_config 50 cycle_io []).1
run_backup_cycle-AllStoresOk_example =
    run_backup_cycle-AllStoresOk hashing hundredths cycle_config 50 cycle_io (λ w. view-hex) []
      no_stores

abbrev no_destination : CycleConfig
no_destination = record cycle_config { destinations = [] }

run_backup_cycle_unresolved_example :
    (is_ok (run_backup_cycle hashing hundredths no_destination 50 cycle_io []).0 ≡ false)
    × ((run_backup_cycle hashing hundredths no_destination 50 cycle_io []).1 ≡ [])
unfolding find_destination
run_backup_cycle_unresolved_example =
    run_backup_cycle_unresolved hashing hundredths no_destination 50 cycle_io watched [] (inl refl)
      refl refl
