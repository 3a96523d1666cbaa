-- ===== src/Versioned/Restore/Build/Files.antt =====
-- The loop over the planned files of a restore (restore.rs).
use backup_sync.Prelude.{
  ℕ, ◌+◌, ◌≡◌, ◌⊎◌, inl, inr, refl, sym, false, Option, some, List, [], ◌∷◌, arith, In, All, length,
}
use mathlib.Core.Path.{subst}
use backup_sync.Prelude.Run.{Outcome, bind-Outcome, Outcome-map}
use backup_sync.Map.{get}
use backup_sync.Codec.Blob.{BlobCipher}
use backup_sync.Versioned.Disk.{Disk}
use backup_sync.Versioned.Restore.Request.{PlannedFile}
use backup_sync.Versioned.Restore.Tree.{
  Place, place_eq, place_key, Node, directory, FileTree, place_of, TreeIo,
}
use backup_sync.Versioned.Restore.Build.{BlobReads, parent_of, write_planned, write_files}
use backup_sync.Versioned.Restore.Build.Kept.{Nothing, IsAbove}
use backup_sync.Versioned.Restore.Build.Written.{IsWritten, write_planned-IsWritten}
use backup_sync.Versioned.Restore.Build.Changes.{IsRegular, Change}

-- Where a planned file goes.
abbrev pub target_of : PlannedFile → Place
target_of pf = place_of pf.rel_path

-- The place is none of theirs.
abbrev pub IsApartFrom : Place → List PlannedFile → Type 0
IsApartFrom q planned = All (λ pf. place_eq (target_of pf) q ≡ false) planned

-- No two of the files go to the same place.
abbrev pub Apart : List PlannedFile → Type 0
Apart [] = Unit
Apart (pf ∷ planned) =
    All (λ later. place_eq (target_of later) (target_of pf) ≡ false) planned × Apart planned

-- What was there, or what one of the files brings.
abbrev pub Brought : List PlannedFile → FileTree → Place → Node → Type 0
Brought planned t q n =
    (get q t ≡ some n)
    ⊎ ((pf : PlannedFile) × (In pf planned
          × (((n ≡ directory) × IsAbove q (parent_of (target_of pf)))
              ⊎ ((q ≡ target_of pf) × IsRegular n))))

module _ (io : TreeIo) (reads : BlobReads) (store : Disk) (cipher : Option BlobCipher) where
  pub record Files (planned : List PlannedFile) (t u : FileTree) : Type 0 where
    pub kept : (q : Place) (n : Node) → get q t ≡ some n → IsApartFrom q planned → get q u ≡ some n
    pub dirs : (q : Place) → get q t ≡ some directory → get q u ≡ some directory
    pub added : (q : Place) (n : Node) → get q u ≡ some n → Brought planned t q n
    pub written :
        Apart planned → (pf : PlannedFile) → In pf planned → IsWritten io reads store cipher pf u

  Files-nil : (t : FileTree) → Files [] t t
  Files-nil t = record {
    kept = λ q n h a. h;
    dirs = λ q h. h;
    added = λ q n h. inl h;
    written = λ a pf i. absurd i;
  }

  Files-cons :
      (pf : PlannedFile) (planned : List PlannedFile) (t u v : FileTree)
      → Change (target_of pf) t u
      → IsWritten io reads store cipher pf u
      → Files planned u v
      → Files (pf ∷ planned) t v
  Files-cons pf planned t u v g w h = record {
    kept = λ q n e a. h.kept q n (g.kept q n e a.0) a.1;
    dirs = λ q e. h.dirs q (g.dirs q e);
    added = λ q n e. elim (h.added q n e) [
      | inl old ↦ elim (g.added q n old) [
        | inl older ↦ inl older
        | inr new ↦ inr (pf, (inl refl, new))
      ]
      | inr new ↦ let (later, (i, what)) = new in inr (later, (inr i, what))
    ];
    written = λ a later i. elim i [
      | inl it ↦
          let (content, (at, right)) = w in
          subst (λ x. IsWritten io reads store cipher x v) (sym it)
            (content, (h.kept (target_of pf) _ at a.0, right))
      | inr rest ↦ h.written a.1 later rest
    ];
  }

  -- The loop over the files leaves each of them in its place, and brings nothing else.
  pub write_files-Files :
      (planned : List PlannedFile) (n : ℕ) (t : FileTree)
      → Outcome
          (λ m u. Files planned t u × (m ≡ n + length planned))
          Nothing
          (write_files io reads store cipher planned n t).0
          (write_files io reads store cipher planned n t).1
  unfolding write_files
  write_files-Files [] n t = (Files-nil t, omega arith)
  write_files-Files (pf ∷ planned) n t =
      bind-Outcome (λ x u. Change (target_of pf) t u × IsWritten io reads store cipher pf u)
        (λ m u. Files (pf ∷ planned) t u × (m ≡ n + length (pf ∷ planned))) Nothing
        (write_planned io reads store cipher pf) _ t
        (write_planned-IsWritten io reads store cipher pf t)
        (λ x u g.
          let r = write_files io reads store cipher planned (n + 1) u in
          Outcome-map (λ m v. Files planned u v × (m ≡ n + 1 + length planned))
            (λ m v. Files (pf ∷ planned) t v × (m ≡ n + length (pf ∷ planned))) Nothing r.0 r.1
            (λ m h. (Files-cons pf planned t u _ g.0 g.1 h.0, omega (arith, h.1)))
            (write_files-Files planned (n + 1) u))
