-- ===== src/Versioned/Gc.antt =====
-- `gc_unreferenced_blobs` of crates/core/src/backup/versioned/store.rs.
pub mod Referenced
pub mod Sweep
pub mod Complete
use backup_sync.Prelude.{
  Bool, true, false, ◌||◌, Option, none, some, List, [], ◌∷◌, ◌++◌, if◌then◌else◌, Str, Result, ok,
  err, ◌>>=◌,
}
use backup_sync.Map.{Map}
use backup_sync.Versioned.Model.{ManifestEntry, Manifest}
use backup_sync.Versioned.Prune.{contains}
use backup_sync.Versioned.Disk.{Disk, StoreError, SourceStore, unreadable, io_failed}
use backup_sync.Versioned.Exec.{Exec}

-- What the file system refuses: to list a source's manifests, to tell a blob's name and type, to
-- remove a blob.
pub record GcIo : Type 0 where
  pub list_refused : Str → Bool
  pub entry_refused : Str × Str → Bool
  pub remove_refused : Str × Str → Bool

abbrev pub hashes_of_entry : Option Str → List Str
hashes_of_entry none = []
hashes_of_entry (some h) = h ∷ []

unfoldable pub hashes_of_entries : Map Str ManifestEntry → List Str
hashes_of_entries [] = []
hashes_of_entries ((k, e) ∷ m) = hashes_of_entry e.sha256 ++ hashes_of_entries m

-- A manifest that cannot be read ends the operation.
unfoldable pub hashes_of_manifests : Map Str (Option Manifest) → Result StoreError (List Str)
unfolding hashes_of_entries
hashes_of_manifests [] = ok []
hashes_of_manifests ((id, none) ∷ files) = err (unreadable id)
hashes_of_manifests ((id, some m) ∷ files) = do
  rest ← hashes_of_manifests files
  ok (hashes_of_entries m.entries ++ rest)

module _ (io : GcIo) where
  unfoldable pub referenced_hashes : Map Str SourceStore → Result StoreError (List Str)
  unfolding hashes_of_manifests
  referenced_hashes [] = ok []
  referenced_hashes ((id, s) ∷ sources) = do
    rest ← referenced_hashes sources
    hashes ← (if io.list_refused id then err (io_failed id) else hashes_of_manifests s.manifests)
    ok (hashes ++ rest)

  -- The loop over the blob files; what it does not reach stays.
  unfoldable pub sweep :
      List Str → Map (Str × Str) Str → Result StoreError (Unit {0}) × Map (Str × Str) Str
  sweep referenced [] = (ok tt, [])
  sweep referenced ((k, b) ∷ blobs) =
      let rest = sweep referenced blobs in
      if io.entry_refused k
      then (err (io_failed k.1), (k, b) ∷ blobs)
      else if contains k.1 referenced || io.remove_refused k
      then (rest.0, (k, b) ∷ rest.1)
      else rest

  abbrev pub sweep_disk : Result StoreError (List Str) → Exec (Unit {0})
  sweep_disk (err e) d = (err e, d)
  sweep_disk (ok referenced) d =
      ((sweep referenced d.blobs).0, record d { blobs = (sweep referenced d.blobs).1 })

  unfoldable pub gc_unreferenced_blobs : Exec (Unit {0})
  unfolding referenced_hashes sweep
  gc_unreferenced_blobs d =
      if d.sources_exist then sweep_disk (referenced_hashes d.sources) d else (ok tt, d)
