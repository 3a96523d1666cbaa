-- ===== src/Versioned/Restore/Build/Directories.antt =====
-- The loop over the directory entries of a manifest (restore.rs).
use mathlib.Core.Path.{subst}
use backup_sync.Prelude.{
  ℕ, ◌≡◌, ◌⊎◌, inl, inr, refl, sym, false, ◌||◌, some, [], ◌∷◌, arith, In, Str, Bool-cases,
}
use backup_sync.Prelude.Run.{Outcome, bind-Outcome, Outcome-map}
use backup_sync.Map.{Map, get, contains_key, get-contains_key}
use backup_sync.Versioned.Model.{ManifestEntry, is_file}
use backup_sync.Versioned.Restore.Tree.{
  Place, place_key, Node, directory, FileTree, place_of, TreeIo, create_dir_all,
}
use backup_sync.Versioned.Restore.Build.{make_dir, make_dirs}
use backup_sync.Versioned.Restore.Build.Kept.{Nothing, IsAbove, Made, create_dir_all-Made}

-- Nothing but directories.
abbrev pub AllDirs : FileTree → Type 0
AllDirs t = (q : Place) (n : Node) → get q t ≡ some n → n ≡ directory

-- Directories at and above those of the entries are added.
pub record Directories (entries : Map Str ManifestEntry) (t u : FileTree) : Type 0 where
  pub kept : (q : Place) (n : Node) → get q t ≡ some n → get q u ≡ some n
  pub added :
      (q : Place) (n : Node)
      → get q u ≡ some n
      → (get q t ≡ some n)
        ⊎ ((n ≡ directory)
            × ((p : Str × ManifestEntry) × (In p entries
                  × ((is_file p.1.kind ≡ false) × IsAbove q (place_of p.1.rel_path)))))
  pub made :
      (p : Str × ManifestEntry)
      → In p entries
      → is_file p.1.kind ≡ false
      → get (place_of p.1.rel_path) u ≡ some directory

Directories-nil : (t : FileTree) → Directories [] t t
Directories-nil t = record { kept = λ q n h. h; added = λ q n h. inl h; made = λ p i h. absurd i }

-- What one entry does.
record One (p : Str × ManifestEntry) (t u : FileTree) : Type 0 where
  kept : (q : Place) (n : Node) → get q t ≡ some n → get q u ≡ some n
  added :
      (q : Place) (n : Node)
      → get q u ≡ some n
      → (get q t ≡ some n)
        ⊎ ((n ≡ directory) × ((is_file p.1.kind ≡ false) × IsAbove q (place_of p.1.rel_path)))
  made : is_file p.1.kind ≡ false → get (place_of p.1.rel_path) u ≡ some directory

One-AllDirs : (p : Str × ManifestEntry) (t u : FileTree) → One p t u → AllDirs t → AllDirs u
One-AllDirs p t u g all q n e = elim (g.added q n e) [ inl old ↦ all q n old | inr new ↦ new.0 ]

Directories-cons :
    (p : Str × ManifestEntry) (entries : Map Str ManifestEntry) (t u v : FileTree)
    → One p t u
    → Directories entries u v
    → Directories (p ∷ entries) t v
Directories-cons p entries t u v g h = record {
  kept = λ q n e. h.kept q n (g.kept q n e);
  added = λ q n e. elim (h.added q n e) [
    | inl old ↦ elim (g.added q n old) [
      | inl older ↦ inl older
      | inr new ↦ inr (new.0, (p, (inl refl, new.1)))
    ]
    | inr new ↦ let (is, (x, (i, what))) = new in inr (is, (x, (inr i, what)))
  ];
  made = λ x i is. elim i [
    | inl it ↦
        let of_p : is_file p.1.kind ≡ false =
          subst (λ (y : Str × ManifestEntry). is_file y.1.kind ≡ false) it is in
        subst (λ (y : Str × ManifestEntry). get (place_of y.1.rel_path) v ≡ some directory) (sym it)
          (h.kept (place_of p.1.rel_path) directory (g.made of_p))
    | inr rest ↦ h.made x rest is
  ];
}

module _ (io : TreeIo) where
  make_dir-One :
      (p : Str × ManifestEntry) (n : ℕ) (t : FileTree)
      → AllDirs t
      → Outcome (λ m. One p t) Nothing (make_dir io p.1 n t).0 (make_dir io p.1 n t).1
  unfolding make_dir
  make_dir-One (key, e) n t all =
      elim (Bool-cases (is_file e.kind || contains_key (place_of e.rel_path) t)) [
        | inl skip ↦ rw skip (record {
          kept = λ q m h. h;
          added = λ q m h. inl h;
          made = λ is.
              let (m, at) = get-contains_key (place_of e.rel_path) t (ground (arith, skip, is)) in
              subst (λ x. get (place_of e.rel_path) t ≡ some x) (all (place_of e.rel_path) m at) at;
        })
        | inr make ↦
            let is : is_file e.kind ≡ false = ground (arith, make) in
            rw make (
              bind-Outcome (Made (place_of e.rel_path) t) (λ m. One (key, e) t) Nothing
                (create_dir_all io (place_of e.rel_path)) _ t
                (create_dir_all-Made io (place_of e.rel_path) t)
                (λ x u g. record {
                  kept = g.0.kept;
                  added = λ q m h. elim (g.0.added q m h) [
                    | inl old ↦ inl old
                    | inr new ↦ inr (new.0, (is, new.1))
                  ];
                  made = λ again. g.1;
                }))
      ]

  -- The loop over the entries leaves each directory in its place, and brings nothing else.
  pub make_dirs-Directories :
      (entries : Map Str ManifestEntry) (n : ℕ) (t : FileTree)
      → AllDirs t
      → Outcome
          (λ m. Directories entries t)
          Nothing
          (make_dirs io entries n t).0
          (make_dirs io entries n t).1
  unfolding make_dirs
  make_dirs-Directories [] n t all = Directories-nil t
  make_dirs-Directories ((key, e) ∷ entries) n t all =
      bind-Outcome (λ m. One (key, e) t) (λ m. Directories ((key, e) ∷ entries) t) Nothing
        (make_dir io e n) (make_dirs io entries) t (make_dir-One (key, e) n t all)
        (λ m u g.
          let r = make_dirs io entries m u in
          Outcome-map (λ k. Directories entries u) (λ k. Directories ((key, e) ∷ entries) t) Nothing
            r.0 r.1 (λ k h. Directories-cons (key, e) entries t u _ g h)
            (make_dirs-Directories entries m u (One-AllDirs (key, e) t u g all)))
