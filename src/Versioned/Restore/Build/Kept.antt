-- ===== src/Versioned/Restore/Build/Kept.antt =====
-- What the steps of `build_restore_tree` (restore.rs) add to the tree, and what they leave as it was.
use mathlib.Core.Path.{subst}
use backup_sync.Prelude.{
  ◌≡◌, refl, ap, ◌⊎◌, inl, inr, Option, none, some, List, [], ◌∷◌, ◌++◌, arith, Str, Bool-cases,
}
use backup_sync.Prelude.Run.{Outcome, bind-Outcome, Outcome-map}
use backup_sync.Map.{get, insert, get-insert}
use backup_sync.Versioned.Restore.Tree.{
  Place, place_eq, place_eq_iff, place_key, Node, directory, other, regular, FileTree, TreeIo,
  made_dir, ensure_dir, create_dir_all,
}

abbrev pub Nothing : {S : Type 0} → S → Type 0
Nothing s = Unit {0}

-- The first place is the second one or above it.
abbrev pub IsAbove : Place → Place → Type 0
IsAbove q p = (names : List Str) × (p ≡ names ++ q)

-- Directories are added, at and above a place.
pub record Dirs (p : Place) (t u : FileTree) : Type 0 where
  pub kept : (q : Place) (n : Node) → get q t ≡ some n → get q u ≡ some n
  pub added :
      (q : Place) (n : Node)
      → get q u ≡ some n
      → (get q t ≡ some n) ⊎ ((n ≡ directory) × IsAbove q p)

Dirs-refl : (p : Place) (t : FileTree) → Dirs p t t
Dirs-refl p t = record { kept = λ q n h. h; added = λ q n h. inl h }

Dirs-insert : (p : Place) (t : FileTree) → get p t ≡ none → Dirs p t (insert p directory t)
Dirs-insert p t free = record {
  kept = λ q n h. elim (Bool-cases (place_eq p q)) [
    | inl same ↦
        let clash : get q t ≡ none = subst (λ x. get x t ≡ none) ((place_eq_iff p q).0 same) free in
        absurd (ground (arith, clash, h))
    | inr apart ↦ ground (arith, get-insert p q directory t, apart, h)
  ];
  added = λ q n h. elim (Bool-cases (place_eq p q)) [
    | inl same ↦
        let it : n ≡ directory = ground (arith, get-insert p q directory t, same, h) in
        inr (it, ([], (place_eq_iff p q).0 same))
    | inr apart ↦ inl (ground (arith, get-insert p q directory t, apart, h))
  ];
}

Dirs-below :
    (w : Str) (p : Place) (t u v : FileTree) → Dirs p t u → Dirs (w ∷ p) u v → Dirs (w ∷ p) t v
Dirs-below w p t u v g h = record {
  kept = λ q n e. h.kept q n (g.kept q n e);
  added = λ q n e. elim (h.added q n e) [
    | inr new ↦ inr new
    | inl old ↦ elim (g.added q n old) [
      | inl older ↦ inl older
      | inr new ↦ let (is, (names, up)) = new in inr (is, (w ∷ names, ap (λ x. w ∷ x) up))
    ]
  ];
}

-- A directory was made, or was there.
abbrev pub Made : Place → FileTree → Unit {0} → FileTree → Type 0
Made p t x u = Dirs p t u × (get p u ≡ some directory)

module _ (io : TreeIo) where
  made_dir-Made :
      (p : Place) (t : FileTree) (o : Option Node)
      → get p t ≡ o
      → Outcome (Made p t) Nothing (made_dir io p t o).0 (made_dir io p t o).1
  made_dir-Made p t (some directory) e = (Dirs-refl p t, e)
  made_dir-Made p t (some other) e = tt
  made_dir-Made p t (some (regular c m)) e = tt
  made_dir-Made p t none e = elim (Bool-cases (io.mkdir_refused p)) [
    | inl no_room ↦ rw no_room tt
    | inr room ↦
        let self = (place_eq_iff p p).1 refl in
        rw room (Dirs-insert p t e, ground (arith, get-insert p p directory t, self))
  ]

  pub create_dir_all-Made :
      (p : Place) (t : FileTree)
      → Outcome (Made p t) Nothing (create_dir_all io p t).0 (create_dir_all io p t).1
  unfolding create_dir_all
  create_dir_all-Made [] t = made_dir-Made [] t (get [] t) refl
  create_dir_all-Made (w ∷ p) t =
      bind-Outcome (Made p t) (Made (w ∷ p) t) Nothing (create_dir_all io p)
        (λ x. ensure_dir io (w ∷ p)) t (create_dir_all-Made p t)
        (λ x u g.
          Outcome-map (Made (w ∷ p) u) (Made (w ∷ p) t) Nothing
            (made_dir io (w ∷ p) u (get (w ∷ p) u)).0 (made_dir io (w ∷ p) u (get (w ∷ p) u)).1
            (λ y h. (Dirs-below w p t u _ g.0 h.0, h.1))
            (made_dir-Made (w ∷ p) u (get (w ∷ p) u) refl))
