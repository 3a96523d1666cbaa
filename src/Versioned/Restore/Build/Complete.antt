-- ===== src/Versioned/Restore/Build/Complete.antt =====
-- The whole of `build_restore_tree` (restore.rs) where the file system refuses nothing and every blob
-- decodes.
use mathlib.Core.Path.{subst}
use backup_sync.Prelude.{
  ℕ, ◌+◌, ◌≡◌, inl, inr, refl, sym, true, false, ◌||◌, Option, List, [], ◌∷◌, arith, In, Str,
  Result, ok, err, Bool-cases,
}
use backup_sync.Prelude.Run
use backup_sync.Prelude.Run.{Run, Outcome, Outcome-map, bind-Outcome, Runs, bind-Runs}
use backup_sync.Map.{Map, get, contains_key}
use backup_sync.Codec.Blob.{BlobCipher}
use backup_sync.Versioned.Model.{ManifestEntry, is_file}
use backup_sync.Versioned.Disk.{Disk, Hashing}
use backup_sync.Versioned.Restore.{RestoreError}
use backup_sync.Versioned.Restore.Request.{PlannedFile}
use backup_sync.Versioned.Restore.Plan.Planned.{
  plan_of, planned_files, IsPlanOf, planned_files_sound,
}
use backup_sync.Versioned.Restore.Tree.{place_key, FileTree, place_of, TreeIo, create_dir_all}
use backup_sync.Versioned.Restore.Build.{
  BlobReads, parent_of, count_dir, make_dir, make_dirs, place_plaintext, checked_plaintext,
  write_file_atomic_from_blob, write_planned, write_files, build_restore_tree, files_after,
  build_result,
}
use backup_sync.Versioned.Restore.Build.Kept.{Nothing, Dirs, Made, create_dir_all-Made}
use backup_sync.Versioned.Restore.Build.Written.{
  IsWritten, Placed, parent_made, write_file_atomic_from_blob-Placed, write_planned-IsWritten,
}
use backup_sync.Versioned.Restore.Build.Changes.{Change}
use backup_sync.Versioned.Restore.Build.Restored.{dir_of, Belongs, above_root}
use backup_sync.Versioned.Restore.Build.Runs.{
  IsWilling, IsOpen, create_dir_all-Runs, rename_over-Runs, restore_mtime-Runs, Compatible,
  Accounted, is_open, is_free, Dirs-Accounted, Change-Accounted,
}

module _ (io : TreeIo) (willing : IsWilling io) (entries : Map Str ManifestEntry)
    (compatible : Compatible entries) where
  abbrev AllAccounted : FileTree → Type 0
  AllAccounted t = Accounted entries compatible t

  -- The operation succeeds, and leaves a tree that the entries account for.
  abbrev Fine : {A : Type 0} → Result RestoreError A × FileTree → Type 0
  Fine m = Runs m.0 × Outcome (λ a. AllAccounted) Nothing m.0 m.1

  Fine-bind :
      {A B : Type 0} (m : Run FileTree RestoreError A) (f : A → Run FileTree RestoreError B)
      (t : FileTree)
      → Fine (m t)
      → ((a : A) (u : FileTree) → AllAccounted u → Fine (f a u))
      → Fine (Run.◌>>=◌ m f t)
  Fine-bind m f t h k = (
    bind-Runs (λ a. AllAccounted) Nothing m f t h.1 h.0 (λ a u g. (k a u g).0),
    bind-Outcome (λ a. AllAccounted) (λ b. AllAccounted) Nothing m f t h.1 (λ a u g. (k a u g).1),
  )

  make_dir-Fine :
      (p : Str × ManifestEntry) (n : ℕ) (t : FileTree)
      → In p entries
      → AllAccounted t
      → Fine (make_dir io p.1 n t)
  unfolding make_dir
  make_dir-Fine (key, e) n t i all =
      elim (Bool-cases (is_file e.kind || contains_key (place_of e.rel_path) t)) [
        | inl skip ↦ rw skip ((n, refl), all)
        | inr make ↦
            let is : is_file e.kind ≡ false = ground (arith, make) in
            let dir =
              subst (λ b. IsOpen (dir_of b (place_of e.rel_path)) t) is
                (is_open entries compatible (key, e) t i all) in
            rw make (
              Fine-bind (create_dir_all io (place_of e.rel_path)) (count_dir n) t
                (
                  create_dir_all-Runs io willing (place_of e.rel_path) t dir,
                  Outcome-map (Made (place_of e.rel_path) t) (λ a. AllAccounted) Nothing
                      (create_dir_all io (place_of e.rel_path) t).0
                      (create_dir_all io (place_of e.rel_path) t).1
                      (λ x g.
                        Dirs-Accounted entries compatible (key, e) t _ i
                          (subst
                            (λ b.
                              Dirs (dir_of b (place_of e.rel_path)) t
                                (create_dir_all io (place_of e.rel_path) t).1)
                            (sym is) g.0)
                          all)
                      (create_dir_all-Made io (place_of e.rel_path) t),
                )
                (λ x u g. ((n + 1, refl), g)))
      ]

  make_dirs-Fine :
      (rest : Map Str ManifestEntry) (n : ℕ) (t : FileTree)
      → ((p : Str × ManifestEntry) → In p rest → In p entries)
      → AllAccounted t
      → Fine (make_dirs io rest n t)
  unfolding make_dirs
  make_dirs-Fine [] n t sub all = ((n, refl), all)
  make_dirs-Fine ((key, e) ∷ rest) n t sub all =
      Fine-bind (make_dir io e n) (make_dirs io rest) t
        (make_dir-Fine (key, e) n t (sub (key, e) (inl refl)) all)
        (λ m u g. make_dirs-Fine rest m u (λ p i. sub p (inr i)) g)

  module _ (reads : BlobReads) (store : Disk) (cipher : Option BlobCipher) where
    -- A file's place, with its parent as an entry asks for it.
    parent-Fine :
        (p : Str × ManifestEntry) (t : FileTree)
        → In p entries
        → is_file p.1.kind ≡ true
        → AllAccounted t
        → Fine (create_dir_all io (parent_of (place_of p.1.rel_path)) t)
    parent-Fine p t i is all =
        let place = place_of p.1.rel_path in
        let m = create_dir_all io (parent_of place) t in
        (
          create_dir_all-Runs io willing (parent_of place) t
              (subst (λ b. IsOpen (dir_of b place) t) is (is_open entries compatible p t i all)),
          Outcome-map (λ x. Change place t) (λ a. AllAccounted) Nothing m.0 m.1
              (λ x g. Change-Accounted entries compatible p t _ i is g all)
              (parent_made io reads store cipher place t),
        )

    place-Runs :
        (p : Str × ManifestEntry) (t : FileTree) (r : Result RestoreError Str)
        → In p entries
        → is_file p.1.kind ≡ true
        → AllAccounted t
        → Runs r
        → Runs (Run.proceed r (place_plaintext io reads store cipher (place_of p.1.rel_path)) t).0
    place-Runs p t (err e) i is all runs = absurd (ground (arith, runs.1))
    place-Runs p t (ok content) i is all runs =
        rename_over-Runs io willing (place_of p.1.rel_path) content t
          (get (place_of p.1.rel_path) t) (is_free entries compatible p t i is all)

    write_file_atomic_from_blob-Runs :
        (p : Str × ManifestEntry) (pf : PlannedFile) (t : FileTree)
        → In p entries
        → is_file p.1.kind ≡ true
        → AllAccounted t
        → Runs (checked_plaintext io reads store cipher pf)
        → Runs (write_file_atomic_from_blob io reads store cipher (place_of p.1.rel_path) pf t).0
    unfolding write_file_atomic_from_blob
    write_file_atomic_from_blob-Runs p pf t i is all runs =
        let parent = parent-Fine p t i is all in
        bind-Runs (λ x. AllAccounted) Nothing
          (create_dir_all io (parent_of (place_of p.1.rel_path))) _ t parent.1 parent.0
          (λ x u g.
            rw (willing.temp (place_of p.1.rel_path))
              (place-Runs p u (checked_plaintext io reads store cipher pf) i is g runs))

    module _ (hashing : Hashing) where
      write_planned-Fine :
          (p : Str × ManifestEntry) (hash : Str) (t : FileTree)
          → In p entries
          → is_file p.1.kind ≡ true
          → AllAccounted t
          → Runs (checked_plaintext io reads store cipher (plan_of hashing p.1 hash))
          → Fine (write_planned io reads store cipher (plan_of hashing p.1 hash) t)
      unfolding write_planned Placed
      write_planned-Fine p hash t i is all runs =
          let pf = plan_of hashing p.1 hash in
          let place = place_of p.1.rel_path in
          let parent = parent-Fine p t i is all in
          let m = write_planned io reads store cipher pf t in
          (
            bind-Runs (λ x. AllAccounted) Nothing (create_dir_all io (parent_of place)) _ t parent.1
                parent.0
                (λ x u g.
                  bind-Runs (Placed io reads store cipher pf place u) Nothing
                    (write_file_atomic_from_blob io reads store cipher place pf) _ u
                    (write_file_atomic_from_blob-Placed io reads store cipher place pf u)
                    (write_file_atomic_from_blob-Runs p pf u i is g runs)
                    (λ y v (content, (h, right)).
                      restore_mtime-Runs io willing place p.1.mtime_unix p.1.mtime_nanos v content
                        h.1)),
            Outcome-map (λ x u. Change place t u × IsWritten io reads store cipher pf u)
                (λ a. AllAccounted) Nothing m.0 m.1
                (λ x g. Change-Accounted entries compatible p t _ i is g.0 all)
                (write_planned-IsWritten io reads store cipher pf t),
          )

      -- Each is the plan of an entry, and its blob decodes to the expected content.
      abbrev Decodable : PlannedFile → Type 0
      Decodable pf =
          ((p : Str × ManifestEntry) × (In p entries × IsPlanOf hashing pf p.1))
          × Runs (checked_plaintext io reads store cipher pf)

      planned-Fine :
          (pf : PlannedFile) (t : FileTree)
          → Decodable pf
          → AllAccounted t
          → Fine (write_planned io reads store cipher pf t)
      planned-Fine pf t ((p, (i, (is, (hash, (digest, it))))), runs) all =
          subst (λ x. Fine (write_planned io reads store cipher x t)) (sym it)
            (write_planned-Fine p hash t i is all
              (subst (λ x. Runs (checked_plaintext io reads store cipher x)) it runs))

      write_files-Fine :
          (planned : List PlannedFile) (n : ℕ) (t : FileTree)
          → ((pf : PlannedFile) → In pf planned → Decodable pf)
          → AllAccounted t
          → Fine (write_files io reads store cipher planned n t)
      unfolding write_files
      write_files-Fine [] n t each all = ((n, refl), all)
      write_files-Fine (pf ∷ planned) n t each all =
          Fine-bind (write_planned io reads store cipher pf) _ t
            (planned-Fine pf t (each pf (inl refl)) all)
            (λ x u g. write_files-Fine planned (n + 1) u (λ x i. each x (inr i)) g)

      -- The tree is built.
      pub build_restore_tree-Runs :
          ((pf : PlannedFile)
            → In pf (planned_files hashing entries)
            → Runs (checked_plaintext io reads store cipher pf))
          → Runs
              (build_restore_tree io reads store cipher entries
                (planned_files hashing entries)
                []).0
      unfolding build_restore_tree get
      build_restore_tree-Runs decodes =
          let planned = planned_files hashing entries in
          let root = create_dir_all io [] [] in
          (Fine-bind (create_dir_all io []) _ []
            (
              create_dir_all-Runs io willing [] [] (λ q n above e. cc),
              Outcome-map (Made [] []) (λ a. AllAccounted) Nothing root.0 root.1
                  (λ x g q n e. elim (g.0.added q n e) [
                    | inl old ↦ cc
                    | inr new ↦ subst (Belongs entries q) (sym new.0) (inl (above_root q new.1))
                  ])
                  (create_dir_all-Made io [] []),
            )
            (λ x t g.
              Fine-bind (make_dirs io entries 0) (files_after io reads store cipher planned) t
                (make_dirs-Fine entries 0 t (λ p i. i) g)
                (λ m u d.
                  Fine-bind (write_files io reads store cipher planned 0)
                    (build_result io reads store cipher m) u
                    (write_files-Fine planned 0 u
                      (λ pf i. (planned_files_sound hashing entries pf i, decodes pf i)) d)
                    (λ k v f. ((_, refl), f))))).0
