-- ===== src/Versioned/Release/Kept.antt =====
-- `remove_kept_safety_version` (store.rs) and what a store is restored from.
use backup_sync.Prelude.{
  ◌≡◌, refl, sym, Bool, true, false, not, Option, none, some, List, if◌then◌else◌, Str, codes,
  str_eq, str_eq_iff, Result, ok, err, inl, inr, In, Bool-cases, arith,
}
use backup_sync.Map.{contains_key, str_key}
use backup_sync.Versioned.Model.{VersionInfo, VersionIndex}
use backup_sync.Versioned.Validation.{IndexError, validate_version_index}
use backup_sync.Versioned.Disk.{
  Disk, Hashing, StoreError, source_of, io_failed, IndexFile, absent, corrupt, index_file,
}
use backup_sync.Versioned.Exec.{pure, ◌>>=◌, Outcome, Hoare, Hoare-bind}
use backup_sync.Versioned.Gc.{gc_unreferenced_blobs}
use backup_sync.Versioned.Baseline.{is_listed}
use backup_sync.Versioned.Folder.{set_source, read_index, validated}
use backup_sync.Versioned.Commit.Store.{AllReadable, StoreOk, source_of-SourceOk}
use backup_sync.Versioned.Commit.Collect.{gc_unreferenced_blobs-StoreOk}
use backup_sync.Versioned.Commit.Writes.{
  durably-Hoare, In-filter, Ready, Listed, index-Listed, removal-Listed,
}
use backup_sync.Versioned.Commit.Opened.{Outcome-of}
use backup_sync.Versioned.Release.{
  ReleaseIo, kept_version, without_safety, without_version, store_index, remove_present,
  remove_manifest, after_removal, after_write, release_as, release, read_source_index,
  remove_kept_safety_version,
}

not_kept :
    (kept : Str) (versions : List VersionInfo) (v : VersionInfo)
    → In v (without_version kept versions)
    → str_eq kept v.id ≡ false
unfolding without_version
not_kept kept versions v place =
    let (listed, passes) = In-filter (λ w. not (str_eq w.id kept)) v versions place in
    elim (Bool-cases (str_eq kept v.id)) [
      | inr other ↦ other
      | inl same ↦
          absurd
            (ground (arith, passes, (str_eq_iff v.id kept).1 (sym ((str_eq_iff kept v.id).0 same))))
    ]

still_listed :
    (kept : Str) (versions : List VersionInfo) (v : VersionInfo)
    → In v (without_version kept versions)
    → In v versions
unfolding without_version
still_listed kept versions v place = (In-filter (λ w. not (str_eq w.id kept)) v versions place).0

module _ (hashing : Hashing) (source_path source_id : Str) (io : ReleaseIo) where
  abbrev Store : Disk → Type 0
  Store d = StoreOk hashing d

  store_index-Hoare :
      (index : VersionIndex)
      → Hoare
          (Ready hashing source_id index)
          (store_index source_path source_id io index)
          (λ u. Listed hashing source_id index)
          Store
  unfolding store_index
  store_index-Hoare index =
      durably-Hoare (Ready hashing source_id index) (Listed hashing source_id index) Store io.index
        (io_failed (codes "index.json"))
        (set_source source_id (λ s. record s { index = index_file index }))
        (λ d h. index-Listed hashing source_id index d h) (λ d h. h.0) (λ d h. h.0)

  remove_manifest-Hoare :
      (index : VersionIndex) (kept : Str)
      → ((v : VersionInfo) → In v index.versions → str_eq kept v.id ≡ false)
      → Hoare
          (Listed hashing source_id index)
          (remove_manifest source_path source_id io kept)
          (λ u. Listed hashing source_id index)
          Store
  unfolding remove_manifest
  remove_manifest-Hoare index kept unlisted = record {
    run = λ d h. cases d (contains_key kept (source_of d source_id).manifests) h;
  }
    where
      cases :
          (d : Disk) (present : Bool)
          → Listed hashing source_id index d
          → Outcome
              (λ u. Listed hashing source_id index)
              Store
              (remove_present source_path source_id io kept present d).0
              (remove_present source_path source_id io kept present d).1
      cases d false h = h.0
      cases d true h = elim (Bool-cases io.removal_refused) [
        | inl refused ↦ rw refused (h.0)
        | inr done ↦ rw done (removal-Listed hashing source_id index kept d unlisted h)
      ]

  after_removal-Hoare :
      (index : VersionIndex) (kept : Str) (u : Unit {0})
      → Hoare
          (Listed hashing source_id index)
          (after_removal source_path source_id io kept u)
          (λ r. Store)
          Store
  after_removal-Hoare index kept u =
      Hoare-bind (gc_unreferenced_blobs io.gc) (λ x. pure (some kept))
        (record {
          run = λ d h.
              let after = gc_unreferenced_blobs-StoreOk hashing io.gc d h.0 in
              Outcome-of (λ x. Store) Store (gc_unreferenced_blobs io.gc d).0
                (gc_unreferenced_blobs io.gc d).1 (λ x q. after) after;
        })
        (λ x. record { run = λ d h. h })

  after_write-Hoare :
      (index : VersionIndex) (kept : Str) (u : Unit {0})
      → ((v : VersionInfo) → In v index.versions → str_eq kept v.id ≡ false)
      → Hoare
          (Listed hashing source_id index)
          (after_write source_path source_id io kept u)
          (λ r. Store)
          Store
  after_write-Hoare index kept u unlisted =
      Hoare-bind (remove_manifest source_path source_id io kept)
        (after_removal source_path source_id io kept) (remove_manifest-Hoare index kept unlisted)
        (λ x. after_removal-Hoare index kept x)

  release_as-Hoare :
      (index : VersionIndex) (kept : Option Str)
      → Hoare
          (Ready hashing source_id index)
          (release_as source_path source_id io index kept)
          (λ r. Store)
          Store
  release_as-Hoare index none = record { run = λ d h. h.0 }
  release_as-Hoare index (some kept) =
      let less = without_safety (without_version kept index.versions) index in
      let same = without_safety index.versions index in
      let go =
        Hoare-bind (store_index source_path source_id io less)
          (after_write source_path source_id io kept) (store_index-Hoare less)
          (λ u. after_write-Hoare less kept u (λ v p. not_kept kept index.versions v p)) in
      let stay =
        Hoare-bind (store_index source_path source_id io same) (λ u. pure none)
          (store_index-Hoare same) (λ u. record { run = λ d h. h.0 }) in
      choose (is_listed kept index.versions) go stay
    where
      choose :
          (listed : Bool)
          → Hoare {A = Option Str}
              (Ready hashing source_id (without_safety (without_version kept index.versions) index))
              (store_index source_path source_id io
                  (without_safety (without_version kept index.versions) index)
                >>= after_write source_path source_id io kept)
              (λ r. Store)
              Store
          → Hoare {A = Option Str}
              (Ready hashing source_id (without_safety index.versions index))
              (store_index source_path source_id io (without_safety index.versions index) >>= λ u.
                pure none)
              (λ r. Store)
              Store
          → Hoare {A = Option Str}
              (Ready hashing source_id index)
              (if listed
                then store_index source_path source_id io
                    (without_safety (without_version kept index.versions) index)
                  >>= after_write source_path source_id io kept
                else store_index source_path source_id io (without_safety index.versions index)
                  >>= λ u. pure none)
              (λ r. Store)
              Store
      choose true go stay = record {
        run = λ d h. go.run d (h.0, λ v p. h.1 v (still_listed kept index.versions v p));
      }
      choose false go stay = record { run = λ d h. stay.run d h }

  read_source_index-Hoare :
      Hoare Store (read_source_index source_path source_id io) (Ready hashing source_id) Store
  read_source_index-Hoare = record { run = λ d h. loaded d (source_of d source_id).index refl h }
    where
      checked :
          (d : Disk) (i : VersionIndex) (r : Result IndexError (Unit {0}))
          → Store d
          → AllReadable (source_of d source_id).manifests i.versions
          → Outcome (Ready hashing source_id) Store (validated i r) d
      checked d i (ok u) h readable = (h, readable)
      checked d i (err e) h readable = h

      loaded :
          (d : Disk) (file : IndexFile)
          → (source_of d source_id).index ≡ file
          → Store d
          → Outcome (Ready hashing source_id) Store (read_index source_path file) d
      loaded d absent q h = (h, λ v p. absurd p)
      loaded d corrupt q h = h
      loaded d (index_file i) q h =
          checked d i (validate_version_index i) h
            ((source_of-SourceOk hashing d source_id h).readable i q)

  -- Letting the baseline of a source go, on a store that can be restored from, leaves one that can,
  -- whichever of its writes and removals fail.
  pub remove_kept_safety_version-StoreOk :
      (d : Disk)
      → StoreOk hashing d
      → StoreOk hashing (remove_kept_safety_version source_path source_id io d).1
  unfolding remove_kept_safety_version
  remove_kept_safety_version-StoreOk d h =
      let r = remove_kept_safety_version source_path source_id io d in
      either r.0 r.1 (
        (Hoare-bind (read_source_index source_path source_id io) (release source_path source_id io)
            read_source_index-Hoare
            (λ index.
              release_as-Hoare index
                (kept_version index.safety_pinned_version_id index.safety_pending_version_id))).run
          d h)
    where
      either :
          (r : Result StoreError (Option Str)) (e : Disk) → Outcome (λ x. Store) Store r e → Store e
      either (ok x) e o = o
      either (err x) e o = o
