-- ===== src/Versioned/Restore/Version/Available.antt =====
-- When `restore_version` (restore.rs) succeeds.
use mathlib.Core.Path.{subst}
use backup_sync.Prelude.{
  ℕ, ◌≡◌, refl, sym, ap, ◌∙◌, true, Option, some, List, [], arith, In, Str, Result, ok, err,
  ok_bind, bail_if,
}
use backup_sync.Prelude.Run.{Runs, Outcome-Runs}
use backup_sync.Map.{get, str_key}
use backup_sync.Map.Sorted.{In-get}
use backup_sync.Codec.Blob.{BlobCodec}
use backup_sync.Codec.Digest.{codec_hashing}
use backup_sync.Versioned.Model.{VersionInfo, VersionIndex, ManifestEntry, Manifest}
use backup_sync.Versioned.Validation.{validate_version_id}
use backup_sync.Versioned.Disk.{Disk, blob_exists, index_file, source_of}
use backup_sync.Versioned.Scan.Entries.{IsCoherent}
use backup_sync.Versioned.Blobs.Entries.{HasBlob, IsBacked}
use backup_sync.Versioned.Commit.Store.{StoreOk, source_of-SourceOk}
use backup_sync.Versioned.Cycle.{Stores, disk_of}
use backup_sync.Versioned.Restore.{
  RestoreError, root_not_a_directory, refused, stage_exists, Places, swap_staged_tree_into_place,
}
use backup_sync.Versioned.Restore.Plan.{
  no_preflight, plan_entries, load_manifest_for_request, ensure_restore_free_space,
  preflight_restore,
}
use backup_sync.Versioned.Restore.Request.{
  PlannedFile, RestoreMode, is_in_place, RestoreRequest, RestoreResult, RestoreConfig,
  destination_root_for_source, restore_root, version_id_checked, parsed_manifest,
}
use backup_sync.Versioned.Restore.Plan.Planned.{
  planned_files, planned_files_sound, plan_entries_has,
}
use backup_sync.Versioned.Restore.Tree.{FileTree, TreeIo}
use backup_sync.Versioned.Restore.Build.{BlobReads, checked_plaintext, build_restore_tree}
use backup_sync.Versioned.Restore.Build.Files.{Apart}
use backup_sync.Versioned.Restore.Build.Complete.{build_restore_tree-Runs}
use backup_sync.Versioned.Restore.Version.{
  prepare, after_swap, after_build, build_and_swap, restore_version,
}
use backup_sync.Versioned.Restore.Machine.{RestoreIo, stands, with_key, Prepared}
use backup_sync.Versioned.Restore.Version.Whole.{
  IsSpared, prepare-Known, IsRestored, restore_version-IsRestored,
}
use backup_sync.Versioned.Restore.Version.Decodes.{ReadsAll, digests_of, checked_plaintext-Runs}
use backup_sync.Versioned.Restore.Version.Needs.{
  IsHelpful, IsReady, IsRestorable, swap-Runs, has_room, or_missing_content_runs, removed-Runs,
}

module _ (cfg : RestoreConfig) (reads : BlobReads) (stores : Stores) (codec : BlobCodec) where
  -- What a restore of the manifest has before it writes.
  abbrev prepared : Manifest → Disk → ℕ → Prepared
  prepared manifest store removed = record {
    manifest = manifest;
    store = store;
    planned =
        (plan_entries cfg (digests_of reads codec) store manifest.entries no_preflight).planned;
    cipher = codec.cipher;
    files_removed = removed;
  }

  prepare_runs :
      (io : RestoreIo) (req : RestoreRequest) (p : Places FileTree) (root dir : Str) (free : ℕ)
      (manifest : Manifest)
      → validate_version_id req.version_id ≡ ok tt
      → destination_root_for_source cfg req.source_path ≡ ok root
      → restore_root req ≡ ok dir
      → get req.version_id
          (source_of (disk_of stores root) (reads.sha256_hex req.source_path)).manifests
        ≡ some (some manifest)
      → IsRestorable cfg (digests_of reads codec) (disk_of stores root) free manifest
      → ((x : Str × ManifestEntry)
          → In x manifest.entries
          → HasBlob (digests_of reads codec) (disk_of stores root) x.1)
      → IsHelpful codec io
      → io.free_space ≡ ok free
      → IsReady p
      → (removed : ℕ) × (prepare cfg (digests_of reads codec) reads stores io req p
          ≡ ok (prepared manifest (disk_of stores root) removed))
  unfolding prepare load_manifest_for_request preflight_restore codec_hashing
  prepare_runs io req p root dir free manifest id dest at_dir there m has h space ready =
      let hashing = digests_of reads codec in
      let store = disk_of stores root in
      let found = plan_entries cfg hashing store manifest.entries no_preflight in
      let (removed, counted) =
        removed-Runs io (is_in_place req.mode) p.target manifest.entries h.walk in
      let load : load_manifest_for_request cfg hashing stores req ≡ ok (manifest, store) =
        ok_bind _ _ tt _ (ap version_id_checked id) (
          ok_bind _ _ root _ dest (
            ok_bind _ _ manifest _ (ap (parsed_manifest req.version_id) there)
              (ok_bind _ _ tt _ m.valid refl))) in
      let planned : preflight_restore cfg hashing store io.free_space manifest
          ≡ ok (found.planned, found.total_bytes) =
        ok_bind _ _ found _
          (or_missing_content_runs found
            (plan_entries_has hashing cfg store manifest.entries no_preflight has refl))
          (ok_bind _ _ tt _
            (ap (λ r. ensure_restore_free_space cfg r found.total_bytes) space
              ∙ has_room cfg free found.total_bytes m.room m.minimum)
            refl) in
      (
        removed,
        ok_bind _ _ tt _ (ap version_id_checked id) (
            ok_bind _ _ root _ dest (
              ok_bind _ _ tt _ h.lease (
                ok_bind _ _ (manifest, store) _ load
                  (ok_bind _ _ dir _ at_dir (
                    ok_bind _ _ tt _ (ap (λ b. bail_if b root_not_a_directory) ready.target) (
                      ok_bind _ _ tt _ (ap (λ b. bail_if b refused) h.parent) (
                        ok_bind _ _ (found.planned, found.total_bytes) _ planned
                          (ok_bind _ _ codec _ (ap with_key h.key) (
                            ok_bind _ _ tt _ (ap (λ o. bail_if (stands o) stage_exists) ready.stage)
                              (ok_bind _ _ removed _ counted refl)))))))))),
      )

  after_swap-Runs :
      (io : RestoreIo) (mode : RestoreMode) (result : RestoreResult)
      (r : Result RestoreError (Option FileTree)) (q : Places FileTree)
      → Runs r
      → Runs (after_swap cfg (digests_of reads codec) reads stores io mode result r q).0
  after_swap-Runs io mode result (ok moved) q h = (result, refl)
  after_swap-Runs io mode result (err e) q h = absurd (ground (arith, h.1))

  after_build-Runs :
      (io : RestoreIo) (mode : RestoreMode) (removed : ℕ) (p : Places FileTree)
      (built : Result RestoreError RestoreResult) (t : FileTree)
      → IsHelpful codec io
      → Runs built
      → Runs (after_build cfg (digests_of reads codec) reads stores io mode removed p built t).0
  after_build-Runs io mode removed p (ok result) t h runs =
      let swap = swap_staged_tree_into_place io.swap (record p { stage = some t }) in
      after_swap-Runs io mode (record result { files_removed = removed }) swap.0 swap.1
        (swap-Runs io.swap t p.target p.aside h.aside h.move)
  after_build-Runs io mode removed p (err e) t h runs = absurd (ground (arith, runs.1))

  -- Every file of a manifest that a store keeps has its blob, under a digest that names one.
  IsKept : Disk → Manifest → Type 0
  IsKept store manifest =
      IsCoherent manifest.entries × IsBacked (digests_of reads codec) store manifest.entries

  kept_blobs :
      (store : Disk) (manifest : Manifest) (x : Str × ManifestEntry)
      → IsKept store manifest
      → In x manifest.entries
      → HasBlob (digests_of reads codec) store x.1
  unfolding IsKept
  kept_blobs store manifest x kept i =
      kept.1 x.0 x.1 (In-get x.0 x.1 manifest.entries kept.0.sorted i)

  kept_decodes :
      (io : TreeIo) (store : Disk) (manifest : Manifest) (pf : PlannedFile)
      → ReadsAll reads
      → StoreOk (digests_of reads codec) store
      → IsKept store manifest
      → In pf (planned_files (digests_of reads codec) manifest.entries)
      → Runs (checked_plaintext io reads store codec.cipher pf)
  unfolding IsKept
  kept_decodes io store manifest pf all s kept i =
      let hashing = digests_of reads codec in
      let (x, (at, (is, (hash, (digest, it))))) =
        planned_files_sound hashing manifest.entries pf i in
      let (h, (other, there)) = kept_blobs store manifest x kept at is in
      let same : h ≡ hash = ground (arith, digest, other) in
      subst (λ y. Runs (checked_plaintext io reads store codec.cipher y)) (sym it)
        (checked_plaintext-Runs reads codec io store all x.1 hash s
          ((kept.0.entries x.0 x.1 at).1 hash digest)
          (subst (λ y. blob_exists hashing store y ≡ true) same there))

  restore-Runs :
      (io : RestoreIo) (req : RestoreRequest) (p : Places FileTree) (manifest : Manifest)
      (store : Disk) (removed : ℕ)
      → prepare cfg (digests_of reads codec) reads stores io req p
        ≡ ok (prepared manifest store removed)
      → IsHelpful codec io
      → Runs
          (build_restore_tree io.tree reads store codec.cipher manifest.entries
            (planned_files (digests_of reads codec) manifest.entries)
            []).0
      → (prepared manifest store removed).planned
        ≡ planned_files (digests_of reads codec) manifest.entries
      → Runs (restore_version cfg (digests_of reads codec) reads stores io req p).0
  unfolding restore_version
  restore-Runs io req p manifest store removed prep h built planned =
      let r = prepared manifest store removed in
      let build = λ (x : List PlannedFile).
        build_restore_tree io.tree reads store codec.cipher manifest.entries x [] in
      subst (λ x. Runs (build_and_swap cfg (digests_of reads codec) reads stores io req.mode p x).0)
        (sym prep)
        (after_build-Runs io req.mode removed p (build r.planned).0 (build r.planned).1 h
          (subst (λ x. Runs (build x).0) (sym planned) built))

  -- A version that is listed, under a safe id, in the store of a configured source is restored, if the
  -- store can be restored from: where the manifest has safe paths that do not get in each other's way,
  -- there is room, blobs are read whole, nothing is refused, and the target is free or a directory with
  -- nothing beside it, `restore_version` succeeds, and then the target is a tree with the files and
  -- the directories of the manifest, the directories above them, and nothing else, each file with
  -- content of the digest that its entry tells.
  pub restore_version-available :
      (io : RestoreIo) (req : RestoreRequest) (p : Places FileTree) (root dir : Str) (free : ℕ)
      (index : VersionIndex) (version : VersionInfo)
      → validate_version_id version.id ≡ ok tt
      → version.id ≡ req.version_id
      → destination_root_for_source cfg req.source_path ≡ ok root
      → restore_root req ≡ ok dir
      → StoreOk (digests_of reads codec) (disk_of stores root)
      → (source_of (disk_of stores root) (reads.sha256_hex req.source_path)).index
        ≡ index_file index
      → In version index.versions
      → ((manifest : Manifest)
          → get req.version_id
              (source_of (disk_of stores root) (reads.sha256_hex req.source_path)).manifests
            ≡ some (some manifest)
          → IsRestorable cfg (digests_of reads codec) (disk_of stores root) free manifest)
      → ReadsAll reads
      → IsHelpful codec io
      → io.free_space ≡ ok free
      → IsReady p
      → let m = restore_version cfg (digests_of reads codec) reads stores io req p in
        (result : RestoreResult) × (m.0 ≡ ok result)
        × IsRestored cfg (digests_of reads codec) reads stores io req result m.1
  unfolding IsKept codec_hashing
  restore_version-available io req p root dir free index version id same dest at_dir s listing
        listed restorable all h space ready =
      let hashing = digests_of reads codec in
      let store = disk_of stores root in
      let source = source_of-SourceOk hashing store (reads.sha256_hex req.source_path) s in
      let (manifest, at) = source.readable index listing version listed in
      let there =
        subst
          (λ x.
            get x (source_of store (reads.sha256_hex req.source_path)).manifests
            ≡ some (some manifest))
          same at in
      let fit = restorable manifest there in
      let kept = source.backed req.version_id manifest there in
      let (removed, prep) =
        prepare_runs io req p root dir free manifest
          (subst (λ x. validate_version_id x ≡ ok tt) same id) dest at_dir there fit
          (λ x i. kept_blobs store manifest x kept i) h space ready in
      let known =
        prepare-Known cfg hashing reads stores io req p (prepared manifest store removed) prep in
      let m = restore_version cfg hashing reads stores io req p in
      Outcome-Runs (IsRestored cfg hashing reads stores io req) (IsSpared io p.target) m.0 m.1
        (restore_version-IsRestored cfg hashing reads stores io req p ready.aside (λ n d load.
          let it : manifest ≡ n = ground (arith, load, known.loaded) in
          subst (λ x. Apart (planned_files hashing x.entries)) it fit.apart))
        (restore-Runs io req p manifest store removed prep h
          (build_restore_tree-Runs io.tree h.tree manifest.entries fit.compatible reads store
            codec.cipher hashing (λ pf i. kept_decodes io.tree store manifest pf all s kept i))
          known.planned)
