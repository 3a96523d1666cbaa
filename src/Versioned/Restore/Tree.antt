-- ===== src/Versioned/Restore/Tree.antt =====
-- The tree of files that crates/core/src/backup/versioned/restore.rs builds, and what it asks of the
-- file system there.
use mathlib.Core.Path.{ap₂}
use backup_sync.Prelude.{
  ℕ, ◌≡◌, ◌↔◌, refl, Bool, true, false, ◌&&◌, ◌||◌, Option, none, some, List, [], ◌∷◌, arith,
  if◌then◌else◌, Str, str_eq, str_eq_iff, str_lt, Result, ok, err,
}
use backup_sync.Prelude.Int.{ℤ}
use backup_sync.Prelude.Run.{Run, ◌>>◌}
use backup_sync.Map.{Map, Key, get, insert}
use backup_sync.Versioned.Restore.{RestoreError, refused, components}
use backup_sync.Versioned.Restore.Paths.{resolve}

-- A place by its names, the innermost first; the root of the tree has none.
abbrev pub Place : Type 0
Place = List Str

abbrev pub place_eq : Place → Place → Bool
place_eq [] [] = true
place_eq (v ∷ p) (w ∷ q) = str_eq v w && place_eq p q
place_eq _ _ = false

abbrev pub place_lt : Place → Place → Bool
place_lt [] [] = false
place_lt [] (w ∷ q) = true
place_lt (v ∷ p) [] = false
place_lt (v ∷ p) (w ∷ q) = str_lt v w || (str_eq v w && place_lt p q)

place_eq→eq : (p q : Place) → place_eq p q ≡ true → p ≡ q
place_eq→eq [] [] h = refl
place_eq→eq [] (w ∷ q) h = ground arith
place_eq→eq (v ∷ p) [] h = ground arith
place_eq→eq (v ∷ p) (w ∷ q) h =
    ap₂ (λ a b. a ∷ b) ((str_eq_iff v w).0 (ground (arith, h)))
      (place_eq→eq p q (ground (arith, h)))

place_eq_refl : (p : Place) → place_eq p p ≡ true
place_eq_refl [] = refl
place_eq_refl (v ∷ p) = rw ((str_eq_iff v v).1 refl) (place_eq_refl p)

pub place_eq_iff : (p q : Place) → (place_eq p q ≡ true) ↔ (p ≡ q)
place_eq_iff p q = (place_eq→eq p q, λ e. rw (← e) (place_eq_refl p))

instance abbrev pub place_key : Key Place
place_key = record { beq = place_eq; beq_iff = place_eq_iff; less = place_lt }

-- What stands at a place: a directory, a file with its bytes and the time that was set, if any, or
-- something else, such as a symbolic link.
pub data Node : Type 0 where
  directory other : Node
  regular : Str → Option (ℤ × ℕ) → Node

abbrev pub FileTree : Type 0
FileTree = Map Place Node

-- `root.join(rel_path)`
abbrev pub place_of : Str → Place
place_of rel_path = resolve (components rel_path) []

-- What the file system and the reads of blobs answer while a tree is built.
pub record TreeIo : Type 0 where
  pub mkdir_refused : Place → Bool
  -- The temporary file cannot be created, written or flushed.
  pub temp_refused : Place → Bool
  pub persist_refused : Place → Bool
  pub mtime_refused : Place → Bool

module _ (io : TreeIo) where
  abbrev pub made_dir : Place → FileTree → Option Node → Result RestoreError (Unit {0}) × FileTree
  made_dir p t (some directory) = (ok tt, t)
  made_dir p t (some _) = (err refused, t)
  made_dir p t none = if io.mkdir_refused p then (err refused, t) else (ok tt, insert p directory t)

  abbrev pub ensure_dir : Place → Run FileTree RestoreError (Unit {0})
  ensure_dir p t = made_dir p t (get p t)

  -- `fs::create_dir_all`, from the root of the tree on.
  unfoldable pub create_dir_all : Place → Run FileTree RestoreError (Unit {0})
  create_dir_all [] = ensure_dir []
  create_dir_all (w ∷ p) = create_dir_all p >> ensure_dir (w ∷ p)
