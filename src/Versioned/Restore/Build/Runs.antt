-- ===== src/Versioned/Restore/Build/Runs.antt =====
-- When `build_restore_tree` (restore.rs) succeeds.
use mathlib.Core.Path.{subst}
use mathlib.Core.List.{append-nil}
use backup_sync.Prelude.{
  ℕ, ◌≡◌, ◌≢◌, inl, inr, refl, sym, ap, true, false, Option, none, some, [], ◌∷◌, ◌++◌, arith, In,
  Str, Bool-cases,
}
use backup_sync.Prelude.Int.{ℤ, pos, int_le}
use backup_sync.Prelude.Run.{Runs, bind-Runs}
use backup_sync.Map.{Map, get}
use backup_sync.Versioned.Model.{ManifestEntry, is_file}
use backup_sync.Versioned.Restore.Tree.{
  Place, place_key, Node, directory, other, regular, FileTree, place_of, TreeIo, made_dir,
  ensure_dir, create_dir_all,
}
use backup_sync.Versioned.Restore.Build.{set_time, restore_mtime, rename_over}
use backup_sync.Versioned.Restore.Build.Kept.{Nothing, IsAbove, Dirs, Made, create_dir_all-Made}
use backup_sync.Versioned.Restore.Build.Changes.{Change}
use backup_sync.Versioned.Restore.Build.Restored.{dir_of, Belongs, regular-Belongs}

-- The file system refuses nothing.
pub record IsWilling (io : TreeIo) : Type 0 where
  pub mkdir : (p : Place) → io.mkdir_refused p ≡ false
  pub temp : (p : Place) → io.temp_refused p ≡ false
  pub persist : (p : Place) → io.persist_refused p ≡ false
  pub mtime : (p : Place) → io.mtime_refused p ≡ false

-- At and above a place there is nothing but directories.
abbrev pub IsOpen : Place → FileTree → Type 0
IsOpen p t = (q : Place) (n : Node) → IsAbove q p → get q t ≡ some n → n ≡ directory

module _ (io : TreeIo) (willing : IsWilling io) where
  made_dir-Runs :
      (p : Place) (t : FileTree) (o : Option Node)
      → ((n : Node) → o ≡ some n → n ≡ directory)
      → Runs (made_dir io p t o).0
  made_dir-Runs p t none h = rw (willing.mkdir p) (tt, refl)
  made_dir-Runs p t (some directory) h = (tt, refl)
  made_dir-Runs p t (some other) h = absurd (ground (arith, h other refl))
  made_dir-Runs p t (some (regular c m)) h = absurd (ground (arith, h (regular c m) refl))

  IsOpen-parent : (w : Str) (p : Place) (t : FileTree) → IsOpen (w ∷ p) t → IsOpen p t
  IsOpen-parent w p t h q n (names, up) e = h q n (w ∷ names, ap (λ x. w ∷ x) up) e

  IsOpen-made : (p : Place) (t u : FileTree) (d : Place) → Dirs d t u → IsOpen p t → IsOpen p u
  IsOpen-made p t u d g h q n above e = elim (g.added q n e) [
    | inl old ↦ h q n above old
    | inr new ↦ new.0
  ]

  pub create_dir_all-Runs : (p : Place) (t : FileTree) → IsOpen p t → Runs (create_dir_all io p t).0
  unfolding create_dir_all
  create_dir_all-Runs [] t h = made_dir-Runs [] t (get [] t) (λ n e. h [] n ([], refl) e)
  create_dir_all-Runs (w ∷ p) t h =
      bind-Runs (Made p t) Nothing (create_dir_all io p) (λ x. ensure_dir io (w ∷ p)) t
        (create_dir_all-Made io p t) (create_dir_all-Runs p t (IsOpen-parent w p t h))
        (λ x u g.
          made_dir-Runs (w ∷ p) u (get (w ∷ p) u)
            (λ n e. IsOpen-made (w ∷ p) t u p g.0 h (w ∷ p) n ([], refl) e))

  pub rename_over-Runs :
      (p : Place) (content : Str) (t : FileTree) (o : Option Node)
      → o ≢ some directory
      → Runs (rename_over io p content t o).0
  rename_over-Runs p content t (some directory) h = absurd (h refl)
  rename_over-Runs p content t (some other) h = rw (willing.persist p) (tt, refl)
  rename_over-Runs p content t (some (regular c m)) h = rw (willing.persist p) (tt, refl)
  rename_over-Runs p content t none h = rw (willing.persist p) (tt, refl)

  set_time-Runs :
      (p : Place) (time : ℤ × ℕ) (t : FileTree) (content : Str) (o : Option Node)
      → o ≡ some (regular content none)
      → Runs (set_time io p time t o).0
  set_time-Runs p time t content (some (regular c m)) h = rw (willing.mtime p) (tt, refl)
  set_time-Runs p time t content (some directory) h = cc
  set_time-Runs p time t content (some other) h = cc
  set_time-Runs p time t content none h = cc

  pub restore_mtime-Runs :
      (p : Place) (mtime_unix : ℤ) (mtime_nanos : ℕ) (t : FileTree) (content : Str)
      → get p t ≡ some (regular content none)
      → Runs (restore_mtime io p mtime_unix mtime_nanos t).0
  unfolding restore_mtime
  restore_mtime-Runs p mtime_unix mtime_nanos t content h =
      elim (Bool-cases (int_le mtime_unix (pos 0))) [
        | inl unset ↦ rw unset (tt, refl)
        | inr set ↦ rw set (set_time-Runs p (mtime_unix, mtime_nanos) t content (get p t) h)
      ]

-- No directory that an entry asks for is at or below the place of a file.
abbrev pub Compatible : Map Str ManifestEntry → Type 0
Compatible entries =
    (p r : Str × ManifestEntry)
    → In p entries
    → In r entries
    → is_file p.1.kind ≡ true
    → ¬ IsAbove (place_of p.1.rel_path) (dir_of (is_file r.1.kind) (place_of r.1.rel_path))

module _ (entries : Map Str ManifestEntry) (compatible : Compatible entries) where
  -- The tree has only what the entries account for.
  abbrev pub Accounted : FileTree → Type 0
  Accounted t = (q : Place) (n : Node) → get q t ≡ some n → Belongs entries q n

  Belongs-above :
      (r : Str × ManifestEntry) (q : Place) (n : Node)
      → In r entries
      → IsAbove q (dir_of (is_file r.1.kind) (place_of r.1.rel_path))
      → Belongs entries q n
      → n ≡ directory
  Belongs-above r q directory i above b = refl
  Belongs-above r q other i above b = absurd b
  Belongs-above r q (regular content time) i above (p, (at, (is, e))) = absurd (
      compatible p r at i is
        (subst (λ x. IsAbove x (dir_of (is_file r.1.kind) (place_of r.1.rel_path))) e above))

  pub is_open :
      (r : Str × ManifestEntry) (t : FileTree)
      → In r entries
      → Accounted t
      → IsOpen (dir_of (is_file r.1.kind) (place_of r.1.rel_path)) t
  is_open r t i all q n above e = Belongs-above r q n i above (all q n e)

  -- At a file's place there is no directory.
  pub is_free :
      (p : Str × ManifestEntry) (t : FileTree)
      → In p entries
      → is_file p.1.kind ≡ true
      → Accounted t
      → get (place_of p.1.rel_path) t ≢ some directory
  is_free p t i is all e = elim (all (place_of p.1.rel_path) directory e) [
    | inl root ↦ compatible p p i i is (
      dir_of (is_file p.1.kind) (place_of p.1.rel_path),
      sym (
          subst
            (λ x.
              dir_of (is_file p.1.kind) (place_of p.1.rel_path) ++ x
              ≡ dir_of (is_file p.1.kind) (place_of p.1.rel_path))
            (sym root) (append-nil _)),
    )
    | inr asked ↦ let (r, (at, above)) = asked in compatible p r i at is above
  ]

  pub Dirs-Accounted :
      (r : Str × ManifestEntry) (t u : FileTree)
      → In r entries
      → Dirs (dir_of (is_file r.1.kind) (place_of r.1.rel_path)) t u
      → Accounted t
      → Accounted u
  Dirs-Accounted r t u i g all q n e = elim (g.added q n e) [
    | inl old ↦ all q n old
    | inr new ↦ subst (Belongs entries q) (sym new.0) (inr (r, (i, new.1)))
  ]

  pub Change-Accounted :
      (p : Str × ManifestEntry) (t u : FileTree)
      → In p entries
      → is_file p.1.kind ≡ true
      → Change (place_of p.1.rel_path) t u
      → Accounted t
      → Accounted u
  Change-Accounted p t u i is g all q n e = elim (g.added q n e) [
    | inl old ↦ all q n old
    | inr new ↦ elim new [
      | inl dir ↦
          subst (Belongs entries q) (sym dir.0)
            (inr (p, (i, subst (λ b. IsAbove q (dir_of b (place_of p.1.rel_path))) (sym is) dir.1)))
      | inr reg ↦ regular-Belongs entries q n reg.1 (p, (i, (is, reg.0)))
    ]
  ]
