-- ===== src/Versioned/Restore/Version/Whole.antt =====
-- The whole of `restore_version` (restore.rs): all of the version, or the target as it was.
use mathlib.Core.Path.{subst}
use backup_sync.Prelude.{
  ◌≡◌, ◌⊎◌, inl, refl, sym, ap, ◌∙◌, Bool, true, false, Option, none, some, [], arith, In, length,
  Str, Result, ok, err, bind_ok, bail_if,
}
use backup_sync.Prelude.Run.{Outcome, Outcome-map}
use backup_sync.Versioned.Model.{ManifestEntry, Manifest}
use backup_sync.Versioned.Validation.{validate_version_id}
use backup_sync.Versioned.Disk.{Disk, Hashing}
use backup_sync.Versioned.Blobs.Entries.{HasBlob}
use backup_sync.Versioned.Cycle.{Stores}
use backup_sync.Versioned.Restore.{
  RestoreError, root_not_a_directory, stage_exists, refused, Places, swap_staged_tree_into_place,
}
use backup_sync.Versioned.Restore.Swap.{IsStranded, Swapped, swap_staged_tree_into_place-Swapped}
use backup_sync.Versioned.Restore.Plan.{load_manifest_for_request, preflight_restore}
use backup_sync.Versioned.Restore.Request.{
  RestoreMode, is_in_place, RestoreRequest, RestoreResult, RestoreConfig, version_id_checked,
  destination_root_for_source, restore_root,
}
use backup_sync.Versioned.Restore.Plan.Planned.{planned_files, preflight_restore_planned}
use backup_sync.Versioned.Restore.Tree.{FileTree}
use backup_sync.Versioned.Restore.Build.{BlobReads, build_restore_tree}
use backup_sync.Versioned.Restore.Build.Kept.{Nothing}
use backup_sync.Versioned.Restore.Build.Files.{Apart}
use backup_sync.Versioned.Restore.Build.Restored.{Restored, build_restore_tree-Restored}
use backup_sync.Versioned.Restore.Version.{
  prepare, remove_aside, after_swap, swap_in, after_build, build_and_swap, restore_version,
}
use backup_sync.Versioned.Restore.Machine.{
  RestoreIo, is_blocked, stands, with_key, removed_by, Prepared,
}

-- The target is as it was, with nothing aside; or both the move of the new tree and the rename back
-- were refused, the target is free, and what it was is aside.
abbrev pub IsSpared : RestoreIo → Option FileTree → Places FileTree → Type 0
IsSpared io old after = ((after.target ≡ old) × (after.aside ≡ none)) ⊎ IsStranded io.swap old after

module _ (cfg : RestoreConfig) (hashing : Hashing) (reads : BlobReads) (stores : Stores)
    (io : RestoreIo) where
  remove_aside-target :
      (place : Bool) (moved : Option FileTree) (p : Places FileTree)
      → (remove_aside cfg hashing reads stores io place moved p).target ≡ p.target
  remove_aside-target true (some old) p = refl
  remove_aside-target true none p = refl
  remove_aside-target false moved p = refl

  -- What the swap makes of the three places.
  abbrev Swap : RestoreResult → FileTree → RestoreResult → Places FileTree → Type 0
  Swap result new x after = (x ≡ result) × (after.target ≡ some new)

  after_swap-Swap :
      (mode : RestoreMode) (result : RestoreResult) (new : FileTree) (old : Option FileTree)
      (r : Result RestoreError (Option FileTree)) (p : Places FileTree)
      → Swapped io.swap new old r p
      → let m = after_swap cfg hashing reads stores io mode result r p in
        Outcome (Swap result new) (IsSpared io old) m.0 m.1
  after_swap-Swap mode result new old (ok moved) p h =
      (refl, remove_aside-target (is_in_place mode) moved p ∙ h.1.0)
  after_swap-Swap mode result new old (err e) p h = h.1

  swap_in-Swap :
      (mode : RestoreMode) (result : RestoreResult) (new : FileTree) (p : Places FileTree)
      → p.aside ≡ none
      → let m = swap_in cfg hashing reads stores io mode result (record p { stage = some new }) in
        Outcome (Swap result new) (IsSpared io p.target) m.0 m.1
  swap_in-Swap mode result new p free =
      let at = λ (a : Option FileTree).
        swap_staged_tree_into_place io.swap
          (record { stage = some new; target = p.target; aside = a }) in
      after_swap-Swap mode result new p.target (at p.aside).0 (at p.aside).1 (
        subst (λ a. Swapped io.swap new p.target (at a).0 (at a).1) (sym free)
          (swap_staged_tree_into_place-Swapped io.swap new p.target))

  -- What is known of a restore that is prepared.
  pub record Known (req : RestoreRequest) (r : Prepared) : Type 0 where
    pub loaded : load_manifest_for_request cfg hashing stores req ≡ ok (r.manifest, r.store)
    pub planned : r.planned ≡ planned_files hashing r.manifest.entries
    pub has : (p : Str × ManifestEntry) → In p r.manifest.entries → HasBlob hashing r.store p.1

  pub prepare-Known :
      (req : RestoreRequest) (p : Places FileTree) (r : Prepared)
      → prepare cfg hashing reads stores io req p ≡ ok r
      → Known req r
  unfolding prepare
  prepare-Known req p r h =
      let (_, _, h1) = bind_ok (version_id_checked (validate_version_id req.version_id)) _ r h in
      let (_, _, h2) = bind_ok (destination_root_for_source cfg req.source_path) _ r h1 in
      let (_, _, h3) = bind_ok io.lease _ r h2 in
      let ((manifest, store), load, h4) =
        bind_ok (load_manifest_for_request cfg hashing stores req) _ r h3 in
      let (_, _, h5) = bind_ok (restore_root req) _ r h4 in
      let (_, _, h6) = bind_ok (bail_if (is_blocked p.target) root_not_a_directory) _ r h5 in
      let (_, _, h7) = bind_ok (bail_if io.parent_refused refused) _ r h6 in
      let ((planned, bytes), pre, h8) =
        bind_ok (preflight_restore cfg hashing store io.free_space manifest) _ r h7 in
      let (codec, _, h9) = bind_ok (with_key io.codec) _ r h8 in
      let (_, _, h10) = bind_ok (bail_if (stands p.stage) stage_exists) _ r h9 in
      let (removed, _, h11) =
        bind_ok (removed_by io (is_in_place req.mode) p.target manifest.entries) _ r h10 in
      let (all, has) =
        preflight_restore_planned hashing cfg store io.free_space manifest planned bytes pre in
      let it : record {
        manifest = manifest;
        store = store;
        planned = planned;
        cipher = codec.cipher;
        files_removed = removed;
      }
          ≡ r =
        ground (arith, h11) in
      subst (Known req) it (record { loaded = load; planned = all; has = has })

  -- The version is at the target, all of it.
  pub record IsRestored (req : RestoreRequest) (result : RestoreResult) (after : Places FileTree)
      : Type 0 where
    pub manifest : Manifest
    pub store : Disk
    pub tree : FileTree
    pub loaded : load_manifest_for_request cfg hashing stores req ≡ ok (manifest, store)
    pub there : after.target ≡ some tree
    pub whole : Restored reads.sha256_hex manifest.entries tree
    pub counted : result.files_written ≡ length (planned_files hashing manifest.entries)

  after_build-IsRestored :
      (req : RestoreRequest) (p : Places FileTree) (r : Prepared)
      (built : Result RestoreError RestoreResult) (t : FileTree)
      → p.aside ≡ none
      → Known req r
      → Outcome
          (λ result v.
            Restored reads.sha256_hex r.manifest.entries v
            × (result.files_written ≡ length (planned_files hashing r.manifest.entries)))
          Nothing
          built
          t
      → let m = after_build cfg hashing reads stores io req.mode r.files_removed p built t in
        Outcome (IsRestored req) (IsSpared io p.target) m.0 m.1
  after_build-IsRestored req p r (err e) t free k h = inl (refl, free)
  after_build-IsRestored req p r (ok result) t free k h =
      let whole : RestoreResult = record result { files_removed = r.files_removed } in
      let m = swap_in cfg hashing reads stores io req.mode whole (record p { stage = some t }) in
      Outcome-map (Swap whole t) (IsRestored req) (IsSpared io p.target) m.0 m.1
        (λ x s. record {
          manifest = r.manifest;
          store = r.store;
          tree = t;
          loaded = k.loaded;
          there = s.1;
          whole = h.0;
          counted = ap (λ (y : RestoreResult). y.files_written) s.0 ∙ h.1;
        })
        (swap_in-Swap req.mode whole t p free)

  build_and_swap-IsRestored :
      (req : RestoreRequest) (p : Places FileTree) (r : Result RestoreError Prepared)
      → p.aside ≡ none
      → ((x : Prepared) → r ≡ ok x → Known req x)
      → ((manifest : Manifest) (store : Disk)
          → load_manifest_for_request cfg hashing stores req ≡ ok (manifest, store)
          → Apart (planned_files hashing manifest.entries))
      → let m = build_and_swap cfg hashing reads stores io req.mode p r in
        Outcome (IsRestored req) (IsSpared io p.target) m.0 m.1
  build_and_swap-IsRestored req p (err e) free known apart = inl (refl, free)
  build_and_swap-IsRestored req p (ok r) free known apart =
      let k = known r refl in
      let planned = planned_files hashing r.manifest.entries in
      let Q : RestoreResult → FileTree → Type 0 = λ result v.
        Restored reads.sha256_hex r.manifest.entries v × (result.files_written ≡ length planned) in
      let build = build_restore_tree io.tree reads r.store r.cipher r.manifest.entries in
      let built =
        build_restore_tree-Restored io.tree reads r.store r.cipher hashing r.manifest.entries k.has
          (apart r.manifest r.store k.loaded) in
      after_build-IsRestored req p r (build r.planned []).0 (build r.planned []).1 free k
        (subst (λ x. Outcome Q Nothing (build x []).0 (build x []).1) (sym k.planned) built)

  -- Let nothing stand at the place aside, and no two files of the version go to one place. Whichever
  -- reads and writes fail: if a restore succeeds, the target is a tree with the files and the
  -- directories of the manifest, the directories above them, and nothing else, each file with content
  -- of the digest that the entry tells and with the entry's time, and the count of files written is
  -- that of the manifest. If it fails, the target is as it was and nothing is aside; only where both
  -- the move of the new tree and the rename back were refused may the target be free, with the old
  -- tree aside.
  pub restore_version-IsRestored :
      (req : RestoreRequest) (p : Places FileTree)
      → p.aside ≡ none
      → ((manifest : Manifest) (store : Disk)
          → load_manifest_for_request cfg hashing stores req ≡ ok (manifest, store)
          → Apart (planned_files hashing manifest.entries))
      → let m = restore_version cfg hashing reads stores io req p in
        Outcome (IsRestored req) (IsSpared io p.target) m.0 m.1
  unfolding restore_version
  restore_version-IsRestored req p free apart =
      build_and_swap-IsRestored req p (prepare cfg hashing reads stores io req p) free
        (prepare-Known req p) apart
