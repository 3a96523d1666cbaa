-- ===== src/Versioned/Restore/Build/Restored.antt =====
-- The whole tree that `build_restore_tree` (restore.rs) builds of a manifest.
use mathlib.Core.Path.{subst}
use backup_sync.Prelude.{
  ◌+◌, ◌≡◌, ◌⊎◌, inl, inr, sym, ap, ◌∙◌, Bool, true, false, Option, some, [], ◌∷◌, arith, In,
  length, Str,
}
use backup_sync.Prelude.Run.{Outcome, bind-Outcome}
use backup_sync.Map.{Map, get}
use backup_sync.Codec.Blob.{BlobCipher}
use backup_sync.Versioned.Model.{ManifestEntry, is_file}
use backup_sync.Versioned.Disk.{Disk, Hashing}
use backup_sync.Versioned.Blobs.Entries.{HasBlob}
use backup_sync.Versioned.Restore.Request.{PlannedFile, RestoreResult}
use backup_sync.Versioned.Restore.Plan.Planned.{
  plan_of, planned_files, planned_files_sound, planned_files_complete,
}
use backup_sync.Versioned.Restore.Tree.{
  Place, place_key, Node, directory, other, regular, FileTree, place_of, TreeIo, create_dir_all,
}
use backup_sync.Versioned.Restore.Build.{
  BlobReads, parent_of, write_files, make_dirs, build_result, files_after, build_restore_tree,
}
use backup_sync.Versioned.Restore.Build.Kept.{Nothing, IsAbove, Made, create_dir_all-Made}
use backup_sync.Versioned.Restore.Build.Changes.{IsRegular, time_of}
use backup_sync.Versioned.Restore.Build.Files.{Apart, Files, write_files-Files}
use backup_sync.Versioned.Restore.Build.Directories.{AllDirs, Directories, make_dirs-Directories}

-- The directory that an entry asks for: its own, or, for a file, the one of the file.
abbrev pub dir_of : Bool → Place → Place
dir_of true p = parent_of p
dir_of false p = p

-- What the manifest accounts for: the root, a directory that an entry asks for or one above it, or a
-- file of the manifest.
abbrev pub Belongs : Map Str ManifestEntry → Place → Node → Type 0
Belongs entries q directory =
    (q ≡ [])
    ⊎ ((p : Str × ManifestEntry) × (In p entries
          × IsAbove q (dir_of (is_file p.1.kind) (place_of p.1.rel_path))))
Belongs entries q (regular content time) =
    (p : Str × ManifestEntry) × (In p entries
      × ((is_file p.1.kind ≡ true) × (q ≡ place_of p.1.rel_path)))
Belongs entries q other = ⊥

-- The file's content is the one that the digest of the entry tells, and its time that of the entry.
abbrev pub IsFileOf : (Str → Str) → FileTree → ManifestEntry → Type 0
IsFileOf sha256_hex t e =
    (hash : Str) × (content : Str) × (e.sha256 ≡ some hash)
    × (get (place_of e.rel_path) t ≡ some (regular content (time_of e.mtime_unix e.mtime_nanos)))
    × (sha256_hex content ≡ hash)

-- A tree that holds what the manifest tells, and nothing else.
pub record Restored (sha256_hex : Str → Str) (entries : Map Str ManifestEntry) (t : FileTree)
    : Type 0 where
  pub root : get [] t ≡ some directory
  pub files :
      (p : Str × ManifestEntry) → In p entries → is_file p.1.kind ≡ true → IsFileOf sha256_hex t p.1
  pub dirs :
      (p : Str × ManifestEntry)
      → In p entries
      → is_file p.1.kind ≡ false
      → get (place_of p.1.rel_path) t ≡ some directory
  pub only : (q : Place) (n : Node) → get q t ≡ some n → Belongs entries q n

-- The root alone.
record RootAlone (t : FileTree) : Type 0 where
  root : get [] t ≡ some directory
  alone : (q : Place) (n : Node) → get q t ≡ some n → (n ≡ directory) × (q ≡ [])

pub above_root : (q : Place) → IsAbove q [] → q ≡ []
above_root q ([], e) = sym e
above_root q (w ∷ names, e) = cc

root_alone : (t : FileTree) → Made [] [] tt t → RootAlone t
unfolding get
root_alone t g = record {
  root = g.1;
  alone = λ q n h. elim (g.0.added q n h) [ inl old ↦ cc | inr new ↦ (new.0, above_root q new.1) ];
}

pub regular-Belongs :
    (entries : Map Str ManifestEntry) (q : Place) (n : Node)
    → IsRegular n
    → (p : Str × ManifestEntry) × (In p entries
        × ((is_file p.1.kind ≡ true) × (q ≡ place_of p.1.rel_path)))
    → Belongs entries q n
regular-Belongs entries q (regular content time) r h = h
regular-Belongs entries q directory r h = absurd r
regular-Belongs entries q other r h = absurd r

module _ (io : TreeIo) (reads : BlobReads) (store : Disk) (cipher : Option BlobCipher)
    (hashing : Hashing) (entries : Map Str ManifestEntry) where
  Directories-Belongs :
      (t u : FileTree) (q : Place) (n : Node)
      → RootAlone t
      → Directories entries t u
      → get q u ≡ some n
      → Belongs entries q n
  Directories-Belongs t u q n r d h = elim (d.added q n h) [
    | inl old ↦ subst (Belongs entries q) (sym (r.alone q n old).0) (inl (r.alone q n old).1)
    | inr new ↦
        let (is, (p, (i, (dir, up)))) = new in
        subst (Belongs entries q) (sym is)
          (inr (p, (i, subst (λ b. IsAbove q (dir_of b (place_of p.1.rel_path))) (sym dir) up)))
  ]

  Files-Belongs :
      (t u v : FileTree) (q : Place) (n : Node)
      → RootAlone t
      → Directories entries t u
      → Files io reads store cipher (planned_files hashing entries) u v
      → get q v ≡ some n
      → Belongs entries q n
  Files-Belongs t u v q n r d f h = elim (f.added q n h) [
    | inl old ↦ Directories-Belongs t u q n r d old
    | inr new ↦
        let (pf, (i, what)) = new in
        let (p, (at, (is, (hash, (digest, it))))) = planned_files_sound hashing entries pf i in
        let same : place_of pf.rel_path ≡ place_of p.1.rel_path =
          ap (λ (x : PlannedFile). place_of x.rel_path) it in
        elim what [
          | inl dir ↦ subst (Belongs entries q) (sym dir.0) (
              inr (
                p,
                (
                  at,
                  subst (λ b. IsAbove q (dir_of b (place_of p.1.rel_path))) (sym is)
                      (subst (λ x. IsAbove q (parent_of x)) same dir.1),
                ),
              ))
          | inr reg ↦ regular-Belongs entries q n reg.1 (p, (at, (is, reg.0 ∙ same)))
        ]
  ]

  built :
      (t u v : FileTree)
      → ((p : Str × ManifestEntry) → In p entries → HasBlob hashing store p.1)
      → Apart (planned_files hashing entries)
      → RootAlone t
      → Directories entries t u
      → Files io reads store cipher (planned_files hashing entries) u v
      → Restored reads.sha256_hex entries v
  built t u v has apart r d f = record {
    root = f.dirs [] (d.kept [] directory r.root);
    files = λ p i is.
        let (hash, (digest, there)) = has p i is in
        let (content, (at, right)) =
          f.written apart (plan_of hashing p.1 hash)
            (planned_files_complete hashing entries p hash i is digest) in
        (hash, content, digest, at, right);
    dirs = λ p i is. f.dirs (place_of p.1.rel_path) (d.made p i is);
    only = λ q n h. Files-Belongs t u v q n r d f h;
  }

  -- The tree that is built of a manifest whose files have their blobs, no two at one place.
  pub build_restore_tree-Restored :
      ((p : Str × ManifestEntry) → In p entries → HasBlob hashing store p.1)
      → Apart (planned_files hashing entries)
      → let m =
          build_restore_tree io reads store cipher entries (planned_files hashing entries) [] in
        Outcome
          (λ result v.
            Restored reads.sha256_hex entries v
            × (result.files_written ≡ length (planned_files hashing entries)))
          Nothing
          m.0
          m.1
  unfolding build_restore_tree
  build_restore_tree-Restored has apart =
      let planned = planned_files hashing entries in
      let Q : RestoreResult → FileTree → Type 0 =
        λ result v. Restored reads.sha256_hex entries v × (result.files_written ≡ length planned) in
      bind-Outcome (Made [] []) Q Nothing (create_dir_all io []) _ [] (create_dir_all-Made io [] [])
        (λ x t g.
          let r = root_alone t g in
          let all : AllDirs t = λ q n h. (r.alone q n h).0 in
          bind-Outcome (λ m. Directories entries t) Q Nothing (make_dirs io entries 0)
            (files_after io reads store cipher planned) t (make_dirs-Directories io entries 0 t all)
            (λ m u d.
              bind-Outcome
                (λ k v. Files io reads store cipher planned u v × (k ≡ 0 + length planned)) Q
                Nothing (write_files io reads store cipher planned 0)
                (build_result io reads store cipher m) u
                (write_files-Files io reads store cipher planned 0 u)
                (λ k v f. (built t u v has apart r d f.0, omega (arith, f.1)))))
