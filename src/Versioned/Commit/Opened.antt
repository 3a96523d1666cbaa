-- ===== src/Versioned/Commit/Opened.antt =====
-- The reads of `backup_one_folder` (store.rs), and its directories.
use mathlib.Core.Path.{subst}
use backup_sync.Prelude.{
  ℕ, ◌≡◌, refl, Bool, ◌||◌, Option, none, some, List, [], ◌∷◌, Str, codes, inl, inr, Bool-cases,
  arith, Result, ok, err,
}
use backup_sync.Map.{Map, get, str_key}
use backup_sync.Versioned.Model.{VersionInfo, VersionIndex, Manifest}
use backup_sync.Versioned.Validation.{IndexError, validate_version_index}
use backup_sync.Versioned.Disk.{
  Disk, Hashing, IndexFile, absent, corrupt, index_file, source_of, StoreError, io_failed,
}
use backup_sync.Versioned.Exec.{Outcome, Hoare, Hoare-bind}
use backup_sync.Versioned.Compare.{WatchedKind}
use backup_sync.Versioned.Scan.{ScanConfig}
use backup_sync.Versioned.Scan.Snapshot.{entries_of}
use backup_sync.Versioned.Scan.Entries.{IsCoherent, nil-IsCoherent}
use backup_sync.Versioned.Blobs.Entries.{IsBacked}
use backup_sync.Versioned.Baseline.{F64, maybe_pin_large_deletion_baseline}
use backup_sync.Versioned.Commit.{
  load_index, latest_manifest, write_index, make_directories, baseline_moved,
}
use backup_sync.Versioned.Folder.{
  FolderIo, durably, set_source, validated, read_index, read_manifest, latest_in,
}
use backup_sync.Versioned.Commit.Store.{AllReadable, AllBacked, StoreOk, source_of-SourceOk}
use backup_sync.Versioned.Commit.Writes.{durably-Hoare, Ready, same-Ready, Listed, index-Listed}

pub Outcome-of :
    {X : Type 0} (Q : X → Disk → Type 0) (E : Disk → Type 0) (r : Result StoreError X) (d : Disk)
    → ((a : X) → r ≡ ok a → Q a d)
    → E d
    → Outcome Q E r d
Outcome-of Q E (ok a) d h e = h a refl
Outcome-of Q E (err x) d h e = e

-- The previous manifest is coherent, and each of its files has its blob.
abbrev pub PrevOk : Hashing → Option Manifest → Disk → Type 0
PrevOk hashing prev d = IsCoherent (entries_of prev) × IsBacked hashing d (entries_of prev)

none-PrevOk : (hashing : Hashing) (d : Disk) → PrevOk hashing none d
unfolding get
none-PrevOk hashing d = (nil-IsCoherent, λ k e p. cc)

read_manifest-PrevOk :
    (hashing : Hashing) (d : Disk) (manifests : Map Str (Option Manifest)) (id : Str)
    (prev : Option Manifest) (found : Option (Option Manifest))
    → AllBacked hashing d manifests
    → get id manifests ≡ found
    → read_manifest id found ≡ ok prev
    → PrevOk hashing prev d
read_manifest-PrevOk hashing d manifests id prev none h q p =
    let it : none ≡ prev = ground (arith, p) in
    subst (λ t. PrevOk hashing t d) it (none-PrevOk hashing d)
read_manifest-PrevOk hashing d manifests id prev (some none) h q p = cc
read_manifest-PrevOk hashing d manifests id prev (some (some m)) h q p =
    let it : some m ≡ prev = ground (arith, p) in subst (λ t. PrevOk hashing t d) it (h id m q)

latest_in-PrevOk :
    (hashing : Hashing) (d : Disk) (manifests : Map Str (Option Manifest))
    (versions : List VersionInfo) (prev : Option Manifest)
    → AllBacked hashing d manifests
    → latest_in manifests versions ≡ ok prev
    → PrevOk hashing prev d
unfolding latest_in
latest_in-PrevOk hashing d manifests [] prev h p =
    let it : none ≡ prev = ground (arith, p) in
    subst (λ t. PrevOk hashing t d) it (none-PrevOk hashing d)
latest_in-PrevOk hashing d manifests (v ∷ []) prev h p =
    read_manifest-PrevOk hashing d manifests v.id prev (get v.id manifests) h refl p
latest_in-PrevOk hashing d manifests (v ∷ w ∷ vs) prev h p =
    latest_in-PrevOk hashing d manifests (w ∷ vs) prev h p

module _ (hashing : Hashing) (f64 : F64) (cfg : ScanConfig) (threshold : f64.F) (kind : WatchedKind)
    (source_path name source_id : Str) (keep_versions : ℕ) (io : FolderIo) where
  abbrev Store : Disk → Type 0
  Store d = StoreOk hashing d

  pub moved_versions :
      (prev : Option Manifest) (snapshot : Manifest) (manifests : Map Str (Option Manifest))
      (index : VersionIndex) (had : Bool)
      → (baseline_moved hashing f64 cfg threshold kind source_path name source_id keep_versions io
          prev snapshot manifests index had).1.1.versions
        ≡ index.versions
  unfolding maybe_pin_large_deletion_baseline
  moved_versions none snapshot manifests index had = refl
  moved_versions (some prev) snapshot manifests index had =
      elim (Bool-cases (had || f64.at_most_zero threshold)) [
        | inl off ↦ rw off refl
        | inr on ↦ rw on refl
      ]

  pub load_index-Hoare :
      Hoare Store
        (load_index hashing f64 cfg threshold kind source_path name source_id keep_versions io)
        (Ready hashing source_id)
        Store
  unfolding load_index
  load_index-Hoare = record { run = λ d h. loaded d (source_of d source_id).index refl h }
    where
      checked :
          (d : Disk) (i : VersionIndex) (r : Result IndexError (Unit {0}))
          → Store d
          → AllReadable (source_of d source_id).manifests i.versions
          → Outcome (Ready hashing source_id) Store (validated i r) d
      checked d i (ok u) h readable = (h, readable)
      checked d i (err e) h readable = h

      loaded :
          (d : Disk) (file : IndexFile)
          → (source_of d source_id).index ≡ file
          → Store d
          → Outcome (Ready hashing source_id) Store (read_index source_path file) d
      loaded d absent q h = (h, λ v p. absurd p)
      loaded d corrupt q h = h
      loaded d (index_file i) q h =
          checked d i (validate_version_index i) h
            ((source_of-SourceOk hashing d source_id h).readable i q)

  pub latest_manifest-Hoare :
      (index : VersionIndex)
      → Hoare
          (Ready hashing source_id index)
          (latest_manifest hashing f64 cfg threshold kind source_path name source_id keep_versions
            io index)
          (λ prev d. Ready hashing source_id index d × PrevOk hashing prev d)
          Store
  unfolding latest_manifest
  latest_manifest-Hoare index = record {
    run = λ d ready.
        Outcome-of (λ prev e. Ready hashing source_id index e × PrevOk hashing prev e) Store
          (latest_in (source_of d source_id).manifests index.versions) d
          (λ prev p. (
            ready,
            latest_in-PrevOk hashing d (source_of d source_id).manifests index.versions prev
                ((source_of-SourceOk hashing d source_id ready.0).backed) p,
          ))
          ready.0;
  }

  pub make_directories-Hoare :
      (index : VersionIndex)
      → Hoare
          (Ready hashing source_id index)
          (make_directories hashing f64 cfg threshold kind source_path name source_id keep_versions
            io)
          (λ u. Ready hashing source_id index)
          Store
  unfolding make_directories
  make_directories-Hoare index =
      let ready = Ready hashing source_id index in
      Hoare-bind (durably io.blobs_dir (io_failed (codes "blobs")) (λ d. d))
        (λ u. durably io.manifests_dir (io_failed source_id) (set_source source_id (λ s. s)))
        (durably-Hoare ready ready Store io.blobs_dir (io_failed (codes "blobs")) (λ d. d)
          (λ d h. h) (λ d h. h.0) (λ d h. h.0))
        (λ u.
          durably-Hoare ready ready Store io.manifests_dir (io_failed source_id)
            (set_source source_id (λ s. s))
            (λ d h. same-Ready hashing source_id (λ s. s) index d (λ s. refl) (λ s. refl) h)
            (λ d h. h.0) (λ d h. h.0))

  pub write_index-Hoare :
      (index : VersionIndex)
      → Hoare
          (Ready hashing source_id index)
          (write_index hashing f64 cfg threshold kind source_path name source_id keep_versions io
            index)
          (λ u. Listed hashing source_id index)
          Store
  unfolding write_index
  write_index-Hoare index =
      durably-Hoare (Ready hashing source_id index) (Listed hashing source_id index) Store io.index
        (io_failed (codes "index.json"))
        (set_source source_id (λ s. record s { index = index_file index }))
        (λ d h. index-Listed hashing source_id index d h) (λ d h. h.0) (λ d h. h.0)
