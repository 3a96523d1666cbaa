-- ===== src/Versioned/Restore.antt =====
-- crates/core/src/backup/versioned/restore.rs: which manifests a restore accepts, and the swap of
-- the restored tree into place; its children have the rest. Paths are those of Unix.
pub mod Paths
pub mod Safe
pub mod Accepted
pub mod Swap
pub mod Tree
pub mod Request
pub mod Plan
pub mod Build
pub mod Machine
pub mod Version
use backup_sync.Prelude.{
  ℕ, Bool, true, false, not, ◌&&◌, ◌||◌, Option, none, some, List, [], ◌∷◌, ◌++◌, ◌==◌, leb, any,
  all, if◌then◌else◌, Str, codes, str_eq, length, Result, ok, err, ◌>>=◌, ◌>>◌, bail_if,
}
use backup_sync.Map.{Map}
use backup_sync.Codec.Reader.{CodecError}
use backup_sync.Versioned.Validation.{IndexError}
use backup_sync.Versioned.Model.{ManifestEntry, Manifest}
use backup_sync.Versioned.Disk.{is_lower_hex_byte}

-- Why a file's content cannot be restored.
pub data Missing : Type 0 where
  not_present not_a_file no_sha256 : Str → Missing
  no_blob : Str → Str → Missing

pub data RestoreError : Type 0 where
  unsafe_path : Str → RestoreError
  invalid_sha256 : Str → RestoreError
  key_mismatch : Str → Str → RestoreError
  move_aside_failed move_in_failed : RestoreError
  unsafe_version_id : IndexError → RestoreError
  not_configured not_a_watched_directory missing_destination : Str → RestoreError
  missing_target_dir root_not_a_directory stage_exists : RestoreError
  manifest_unreadable index_unreadable : Str → RestoreError
  unsafe_index : IndexError → RestoreError
  manifest_of_another_source : Str → RestoreError
  missing_content : List Missing → RestoreError
  -- The bytes that are needed or the minimum, and the free ones.
  insufficient_space below_minimum : ℕ → ℕ → RestoreError
  no_lease no_free_space_known no_key : RestoreError
  -- A directory, a file or a time that the file system refused.
  refused : RestoreError
  blob_undecodable : CodecError → RestoreError
  digest_mismatch : Str → Str → RestoreError

-- `std::path::Component`; Unix has no prefixes.
pub data Component : Type 0 where
  root_dir cur_dir parent_dir : Component
  normal : Str → Component

abbrev pub push_byte : ℕ → List Str → List Str
push_byte c [] = (c ∷ []) ∷ []
push_byte c (w ∷ ws) = (c ∷ w) ∷ ws

-- The parts between the slashes.
unfoldable pub split_path : Str → List Str
split_path [] = [] ∷ []
split_path (c ∷ s) = let rest = split_path s in if c == b'/' then [] ∷ rest else push_byte c rest

abbrev pub is_dot : Str → Bool
is_dot w = str_eq w (codes ".")

abbrev pub is_dot_dot : Str → Bool
is_dot_dot w = str_eq w (codes "..")

abbrev pub is_blank : Str → Bool
is_blank [] = true
is_blank (_ ∷ _) = false

-- Empty parts and `.` are left out.
unfoldable pub parse_parts : List Str → List Component
parse_parts [] = []
parse_parts (w ∷ ws) =
    let rest = parse_parts ws in
    if is_blank w || is_dot w
    then rest
    else if is_dot_dot w
    then parent_dir ∷ rest
    else normal w ∷ rest

abbrev pub is_absolute : Str → Bool
is_absolute [] = false
is_absolute (c ∷ s) = c == b'/'

abbrev pub starts_with_dot : List Str → Bool
starts_with_dot [] = false
starts_with_dot (w ∷ ws) = is_dot w

-- `Path::components`: a leading `.` counts.
abbrev pub of_parts : Bool → List Str → List Component
of_parts absolute parts =
    (if absolute then root_dir ∷ [] else if starts_with_dot parts then cur_dir ∷ [] else [])
    ++ parse_parts parts

unfoldable pub components : Str → List Component
unfolding split_path parse_parts
components path = of_parts (is_absolute path) (split_path path)

abbrev pub is_unsafe : Component → Bool
is_unsafe (normal w) = false
is_unsafe _ = true

abbrev is_ascii_alphabetic : ℕ → Bool
is_ascii_alphabetic b = (leb b'A' b && leb b b'Z') || (leb b'a' b && leb b b'z')

abbrev pub has_windows_drive_prefix : Str → Bool
has_windows_drive_prefix (a ∷ b ∷ s) = is_ascii_alphabetic a && b == b':'
has_windows_drive_prefix _ = false

unfoldable pub validate_relative_path : Str → Result RestoreError (Unit {0})
unfolding components
validate_relative_path path =
    bail_if (is_blank path || any (λ b. b == 92) path || has_windows_drive_prefix path)
      (unsafe_path path)
    >> bail_if (is_absolute path || any is_unsafe (components path)) (unsafe_path path)

unfoldable pub validate_content_hash : Str → Str → Result RestoreError (Unit {0})
validate_content_hash hash rel_path =
    bail_if (not (length hash == 64) || not (all is_lower_hex_byte hash)) (invalid_sha256 rel_path)

abbrev pub validate_optional_hash : Option Str → Str → Result RestoreError (Unit {0})
validate_optional_hash none rel_path = ok tt
validate_optional_hash (some hash) rel_path = validate_content_hash hash rel_path

unfoldable pub validate_entry : Str → ManifestEntry → Result RestoreError (Unit {0})
unfolding validate_relative_path validate_content_hash
validate_entry key entry =
    validate_relative_path key
    >> validate_relative_path entry.rel_path
    >> bail_if (not (str_eq key entry.rel_path)) (key_mismatch key entry.rel_path)
    >> validate_optional_hash entry.sha256 entry.rel_path

unfoldable pub validate_entries : Map Str ManifestEntry → Result RestoreError (Unit {0})
unfolding validate_entry
validate_entries [] = ok tt
validate_entries ((key, entry) ∷ entries) = validate_entry key entry >> validate_entries entries

unfoldable pub validate_manifest : Manifest → Result RestoreError (Unit {0})
unfolding validate_entries
validate_manifest manifest = validate_entries manifest.entries

-- The three places of the swap, each with the tree that stands there.
pub record Places (Tree : Type 0) : Type 0 where
  pub stage : Option Tree
  pub target : Option Tree
  pub aside : Option Tree

-- Which of the three renames the file system refuses.
pub record SwapIo : Type 0 where
  pub aside_refused : Bool
  pub move_refused : Bool
  pub rollback_refused : Bool

module _ {Tree : Type 0} (io : SwapIo) where
  -- The old tree goes back, if it was moved and the target is free.
  abbrev pub roll_back : Option Tree → Places Tree → Places Tree
  roll_back (some old) p =
      if io.rollback_refused then p else record p { target = some old; aside = none }
  roll_back none p = p

  abbrev pub roll_back_if_free : Option Tree → Places Tree → Places Tree
  roll_back_if_free none p = roll_back p.aside p
  roll_back_if_free (some t) p = p

  -- `fs::rename(stage_root, target_root)`, and what stands aside after it.
  abbrev pub move_in : Places Tree → Option Tree → Result RestoreError (Option Tree) × Places Tree
  move_in p none = (err move_in_failed, roll_back_if_free p.target p)
  move_in p (some new) =
      if io.move_refused
      then (err move_in_failed, roll_back_if_free p.target p)
      else (ok p.aside, record p { stage = none; target = some new })

  abbrev pub after_aside :
      Places Tree → Option Tree → Result RestoreError (Option Tree) × Places Tree
  after_aside p none = move_in p p.stage
  after_aside p (some old) =
      if io.aside_refused
      then (err move_aside_failed, p)
      else move_in (record p { target = none; aside = some old }) p.stage

  unfoldable pub swap_staged_tree_into_place :
      Places Tree → Result RestoreError (Option Tree) × Places Tree
  swap_staged_tree_into_place p = after_aside p p.target
