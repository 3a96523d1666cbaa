-- ===== src/Versioned/Restore/Version/Reach.antt =====
-- Versions that `list_versions` shows and `restore_version` cannot find (restore.rs).
use mathlib.Core.Path.{subst}
use backup_sync.Prelude.{
  ◌≡◌, ◌≢◌, inl, inr, refl, sym, ap, ◌∙◌, true, ◌&&◌, Option, none, some, List, [], ◌∷◌, arith, In,
  Str, Result, ok, err, bind_ok, Bool-cases,
}
use backup_sync.Map.{get, str_key}
use backup_sync.Versioned.Model.{VersionInfo, VersionIndex}
use backup_sync.Versioned.Validation.{validate_version_id}
use backup_sync.Versioned.Disk.{Hashing, index_file, source_of}
use backup_sync.Versioned.Compare.{directory, WatchedPath}
use backup_sync.Versioned.Cycle.{Destination, Stores, disk_of, find_destination}
use backup_sync.Versioned.Restore.{RestoreError, Places}
use backup_sync.Versioned.Restore.Request.{
  RestoreRequest, RestoreConfig, or_missing, destination_root_for_source, version_id_checked,
  parsed_manifest,
}
use backup_sync.Versioned.Restore.Plan.{
  load_manifest_for_request, listed, list_at, is_directory, list_watched, list_versions,
}
use backup_sync.Versioned.Restore.Tree.{FileTree}
use backup_sync.Versioned.Restore.Build.{BlobReads}
use backup_sync.Versioned.Restore.Machine.{RestoreIo, Prepared}
use backup_sync.Versioned.Restore.Version.{prepare, build_and_swap, restore_version}
use backup_sync.Versioned.Restore.Version.Whole.{prepare-Known}

module _ (cfg : RestoreConfig) (hashing : Hashing) (stores : Stores) where
  -- The store of a watched directory has an index that lists the version.
  pub record Lists (w : WatchedPath) (version : VersionInfo) : Type 0 where
    pub enabled : w.enabled ≡ true
    pub kind : w.kind ≡ directory
    pub destination : Destination
    pub found : find_destination w.destination_id cfg.destinations ≡ some destination
    pub index : VersionIndex
    pub read :
        (source_of (disk_of stores destination.path) (hashing.sha256_hex w.path)).index
        ≡ index_file index
    pub has : In version index.versions

  -- The list shows the version under the path.
  abbrev pub Shows : WatchedPath → VersionInfo → List (Str × List VersionInfo) → Type 0
  Shows w version lists =
      (versions : List VersionInfo) × (In (w.path, versions) lists × In version versions)

  listed-ok :
      (path : Str) (index : VersionIndex) (versions : List VersionInfo)
      → listed cfg hashing path (index_file index) ≡ ok versions
      → index.versions ≡ versions
  listed-ok path index versions h = ground (arith, h)

  -- What a watched directory adds to the list.
  list_at-ok :
      (w : WatchedPath) (rest : Result RestoreError (List (Str × List VersionInfo)))
      (lists : List (Str × List VersionInfo))
      → list_at cfg hashing stores w rest ≡ ok lists
      → (d : Destination) × (find_destination w.destination_id cfg.destinations ≡ some d)
        × ((versions : List VersionInfo) × (listed cfg hashing w.path
                (source_of (disk_of stores d.path) (hashing.sha256_hex w.path)).index
              ≡ ok versions)
            × ((out : List (Str × List VersionInfo)) × (rest ≡ ok out)
                × ((w.path, versions) ∷ out ≡ lists)))
  list_at-ok w rest lists h =
      let (d, at, h1) =
        bind_ok (or_missing w.destination_id (find_destination w.destination_id cfg.destinations)) _
          lists h in
      let (versions, read, h2) =
        bind_ok
          (listed cfg hashing w.path
            (source_of (disk_of stores d.path) (hashing.sha256_hex w.path)).index)
          _ lists h1 in
      let (out, after, h3) = bind_ok rest _ lists h2 in
      (d, or_missing-ok _ _ d at, (versions, read, (out, after, ground (arith, h3))))
    where
      or_missing-ok :
          (id : Str) (o : Option Destination) (x : Destination)
          → or_missing id o ≡ ok x
          → o ≡ some x
      or_missing-ok id none x e = cc
      or_missing-ok id (some y) x e = ground arith

  list_at-Shows :
      (w : WatchedPath) (version : VersionInfo)
      (rest : Result RestoreError (List (Str × List VersionInfo)))
      (lists : List (Str × List VersionInfo))
      → Lists w version
      → list_at cfg hashing stores w rest ≡ ok lists
      → Shows w version lists
  list_at-Shows w version rest lists l h =
      let (d, at, (versions, read, (out, after, all))) = list_at-ok w rest lists h in
      let same : d ≡ l.destination = ground (arith, at, l.found) in
      let index_is : (source_of (disk_of stores d.path) (hashing.sha256_hex w.path)).index
          ≡ index_file l.index =
        subst
          (λ (x : Destination).
            (source_of (disk_of stores x.path) (hashing.sha256_hex w.path)).index
            ≡ index_file l.index)
          (sym same) l.read in
      let it : l.index.versions ≡ versions =
        listed-ok w.path l.index versions (sym (ap (listed cfg hashing w.path) index_is) ∙ read) in
      (versions, (subst (In (w.path, versions)) all (inl refl), subst (In version) it l.has))

  list_watched-Shows :
      (w : WatchedPath) (version : VersionInfo) (ws : List WatchedPath)
      (lists : List (Str × List VersionInfo))
      → Lists w version
      → In w ws
      → list_watched cfg hashing stores ws ≡ ok lists
      → Shows w version lists
  unfolding list_watched
  list_watched-Shows w version [] lists l i h = absurd i
  list_watched-Shows w version (v ∷ ws) lists l i h =
      elim (Bool-cases (v.enabled && is_directory cfg hashing v.kind)) [
        | inl on ↦
            let at : list_at cfg hashing stores v (list_watched cfg hashing stores ws) ≡ ok lists =
              rw on at h in
            elim i [
              | inl here ↦ list_at-Shows w version (list_watched cfg hashing stores ws) lists l (
                  subst
                    (λ x.
                      list_at cfg hashing stores x (list_watched cfg hashing stores ws) ≡ ok lists)
                    (sym here) at)
              | inr later ↦
                  let (d, _, (versions, _, (out, after, all))) =
                    list_at-ok v (list_watched cfg hashing stores ws) lists at in
                  let (shown, (there, has)) = list_watched-Shows w version ws out l later after in
                  (shown, (subst (In (w.path, shown)) all (inr there), has))
            ]
        | inr off ↦ elim i [
          | inl here ↦
              let on : v.enabled ≡ true =
                subst (λ (x : WatchedPath). x.enabled ≡ true) here l.enabled in
              let dir : v.kind ≡ directory =
                subst (λ (x : WatchedPath). x.kind ≡ directory) here l.kind in
              absurd (ground (arith, off, on, ap (is_directory cfg hashing) dir))
          | inr later ↦ list_watched-Shows w version ws lists l later (rw off at h)
        ]
      ]

  module _ (reads : BlobReads) (io : RestoreIo) where
    -- Without the manifest in the store of the configured destination nothing is prepared.
    unprepared :
        (req : RestoreRequest) (p : Places FileTree) (root : Str) (r : Prepared)
        → destination_root_for_source cfg req.source_path ≡ ok root
        → get req.version_id
            (source_of (disk_of stores root) (hashing.sha256_hex req.source_path)).manifests
          ≡ none
        → prepare cfg hashing reads stores io req p ≢ ok r
    unfolding load_manifest_for_request
    unprepared req p root r dest gone e =
        let known = prepare-Known cfg hashing reads stores io req p r e in
        let (_, _, h1) =
          bind_ok (version_id_checked (validate_version_id req.version_id)) _ (r.manifest, r.store)
            known.loaded in
        let (place, at, h2) =
          bind_ok (destination_root_for_source cfg req.source_path) _ (r.manifest, r.store) h1 in
        let (manifest, found, h3) =
          bind_ok
            (parsed_manifest req.version_id (
              get req.version_id
                (source_of (disk_of stores place) (hashing.sha256_hex req.source_path)).manifests))
            _ (r.manifest, r.store) h2 in
        let same : root ≡ place = ground (arith, dest, at) in
        let none_there =
          subst
            (λ x.
              get req.version_id
                (source_of (disk_of stores x) (hashing.sha256_hex req.source_path)).manifests
              ≡ none)
            same gone in
        absurd (ground (arith, sym (ap (parsed_manifest req.version_id) none_there) ∙ found))

    refused_untouched :
        (req : RestoreRequest) (p : Places FileTree) (r : Result RestoreError Prepared)
        → prepare cfg hashing reads stores io req p ≡ r
        → ((x : Prepared) → r ≢ ok x)
        → (e : RestoreError) × (restore_version cfg hashing reads stores io req p ≡ (err e, p))
    unfolding restore_version
    refused_untouched req p (ok x) h fails = absurd (fails x refl)
    refused_untouched req p (err e) h fails =
        (e, ap (build_and_swap cfg hashing reads stores io req.mode p) h)

    -- A source may be watched for several destinations, but a restore looks only into the store of
    -- the first: a version that `list_versions` shows for the source, from the store of another
    -- destination, is refused if the first one does not have its manifest, and nothing is touched.
    pub restore_version-out_of_reach :
        (req : RestoreRequest) (p : Places FileTree) (w : WatchedPath) (version : VersionInfo)
        (root : Str) (lists : List (Str × List VersionInfo))
        → list_versions cfg hashing stores ≡ ok lists
        → In w cfg.watched
        → Lists w version
        → w.path ≡ req.source_path
        → version.id ≡ req.version_id
        → destination_root_for_source cfg req.source_path ≡ ok root
        → get req.version_id
            (source_of (disk_of stores root) (hashing.sha256_hex req.source_path)).manifests
          ≡ none
        → Shows w version lists
          × ((e : RestoreError) × (restore_version cfg hashing reads stores io req p ≡ (err e, p)))
    unfolding list_versions
    restore_version-out_of_reach req p w version root lists shown i l path id dest gone = (
      list_watched-Shows w version cfg.watched lists l i shown,
      refused_untouched req p (prepare cfg hashing reads stores io req p) refl
          (λ x. unprepared req p root x dest gone),
    )
