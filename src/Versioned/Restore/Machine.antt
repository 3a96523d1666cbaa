-- ===== src/Versioned/Restore/Machine.antt =====
-- What `restore_version` of crates/core/src/backup/versioned/restore.rs is given, and
-- `count_extraneous_files`.
use backup_sync.Prelude.{
  ℕ, ◌+◌, Bool, true, false, not, ◌&&◌, Option, none, some, List, [], ◌∷◌, ◌++◌, if◌then◌else◌, any,
  Str, str_eq, Result, ok, err, ◌>>◌, bail_if,
}
use backup_sync.Map.{Map, get, str_key}
use backup_sync.Codec.Blob.{BlobCipher, BlobCodec, KeyError}
use backup_sync.Versioned.Model.{ManifestEntry, Manifest, is_file}
use backup_sync.Versioned.Disk.{Disk}
use backup_sync.Versioned.Scan.{replace_backslash}
use backup_sync.Versioned.Restore.{RestoreError, no_key, refused, SwapIo}
use backup_sync.Versioned.Restore.Request.{PlannedFile}
use backup_sync.Versioned.Restore.Tree.{
  Place, place_key, Node, directory, regular, FileTree, TreeIo,
}

-- What the machine answers during a restore.
pub record RestoreIo : Type 0 where
  pub lease : Result RestoreError (Unit {0})
  -- The parent of the target, and the free bytes there.
  pub parent_refused : Bool
  pub free_space : Result RestoreError ℕ
  -- `BlobCodec::from_config`
  pub codec : Result KeyError BlobCodec
  pub walk_refused : Bool
  pub tree : TreeIo
  pub swap : SwapIo
  -- What `remove_dir_all` leaves of a staged tree, and of the one that was moved aside.
  pub stage_left : FileTree → Option FileTree
  pub aside_left : FileTree → Option FileTree

-- The path below the root that a walk gives, with slashes.
abbrev pub walked : Place → Str
walked [] = []
walked (w ∷ []) = w
walked (w ∷ v ∷ p) = walked (v ∷ p) ++ 47 ∷ w

abbrev pub is_expected : Map Str ManifestEntry → Str → Bool
is_expected entries rel = any (λ p. is_file p.1.kind && str_eq p.1.rel_path rel) entries

abbrev pub count_node : Map Str ManifestEntry → Place → Node → ℕ → ℕ
count_node entries p (regular content time) n =
    if is_expected entries (replace_backslash (walked p)) then n else n + 1
count_node entries p _ n = n

unfoldable pub count_from : Map Str ManifestEntry → FileTree → ℕ → ℕ
count_from entries [] n = n
count_from entries ((p, node) ∷ t) n = count_from entries t (count_node entries p node n)

unfoldable pub count_extraneous_files :
    Bool → FileTree → Map Str ManifestEntry → Result RestoreError ℕ
unfolding count_from
count_extraneous_files walk_refused root entries = do
  bail_if walk_refused refused
  ok (count_from entries root 0)

abbrev pub is_directory : Option Node → Bool
is_directory (some directory) = true
is_directory _ = false

abbrev pub is_blocked : Option FileTree → Bool
is_blocked none = false
is_blocked (some t) = not (is_directory (get [] t))

abbrev pub stands : Option FileTree → Bool
stands none = false
stands (some t) = true

abbrev pub with_key : Result KeyError BlobCodec → Result RestoreError BlobCodec
with_key (ok codec) = ok codec
with_key (err e) = err no_key

-- The files that an in-place restore takes away.
abbrev pub removed_by :
    RestoreIo → Bool → Option FileTree → Map Str ManifestEntry → Result RestoreError ℕ
removed_by io true (some root) entries = count_extraneous_files io.walk_refused root entries
removed_by io _ _ entries = ok 0

-- What a restore has read and checked before it writes.
pub record Prepared : Type 0 where
  pub manifest : Manifest
  pub store : Disk
  pub planned : List PlannedFile
  pub cipher : Option BlobCipher
  pub files_removed : ℕ

abbrev pub left_of : (FileTree → Option FileTree) → FileTree → Option Node → Option FileTree
left_of left t none = none
left_of left t (some root) = left t
