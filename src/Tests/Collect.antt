-- ===== src/Tests/Collect.antt =====
-- Collecting blobs on a store with one that is referenced and one that is not.
use backup_sync.Prelude.{◌≡◌, refl, true, none, some, [], ◌∷◌, Str, codes, inl}
use backup_sync.Prelude.Int.{pos}
use backup_sync.Versioned.Model.{Manifest}
use backup_sync.Versioned.Prune.{contains}
use backup_sync.Versioned.Scan.{file_entry}
use backup_sync.Versioned.Disk.{Disk, absent}
use backup_sync.Versioned.Gc.{
  gc_unreferenced_blobs, referenced_hashes, hashes_of_manifests, hashes_of_entries, sweep,
}
use backup_sync.Versioned.Gc.Referenced.{IsReferenced}
use backup_sync.Versioned.Gc.Complete.{gc_unreferenced_blobs_complete}
use backup_sync.Tests.Fixture.{digest, gc_io}

abbrev manifest : Manifest
manifest = record {
  schema_version = 1;
  source_path = codes "/home";
  created_at_unix = pos 9;
  source_snapshot = none;
  source_snapshot_error = none;
  read_failures = [];
  entries = (codes "a.txt", file_entry (codes "a.txt") 3 (pos 0, 0) digest) ∷ [];
}

abbrev kept : Str × Str
kept = (codes "aa", digest)

abbrev two_blobs : Disk
two_blobs = record {
  sources_exist = true;
  sources =
      (
        codes "s",
        record { manifests = (codes "v", some manifest) ∷ []; index = absent; scan_report = none },
      )
      ∷ [];
  blobs = (kept, 1 ∷ []) ∷ ((codes "bb", codes "junk"), 2 ∷ []) ∷ [];
}

collected : (gc_unreferenced_blobs gc_io two_blobs).1.blobs ≡ (kept, 1 ∷ []) ∷ []
unfolding gc_unreferenced_blobs referenced_hashes hashes_of_manifests hashes_of_entries sweep
    contains
collected = refl

gc_unreferenced_blobs_complete_example : IsReferenced digest two_blobs.sources
unfolding gc_unreferenced_blobs referenced_hashes hashes_of_manifests hashes_of_entries sweep
    contains
gc_unreferenced_blobs_complete_example =
    gc_unreferenced_blobs_complete gc_io two_blobs kept (1 ∷ []) refl refl refl (inl refl)
