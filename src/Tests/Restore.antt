-- ===== src/Tests/Restore.antt =====
-- The theorems on restore, and a name that a backup stores and a restore refuses.
use backup_sync.Prelude.{
  ℕ, ◌≡◌, ◌↔◌, refl, true, false, none, some, [], ◌∷◌, Str, codes, All, ok, err,
}
use backup_sync.Prelude.Int.{pos}
use backup_sync.Versioned.Model.{Manifest}
use backup_sync.Versioned.Scan.{file_entry}
use backup_sync.Versioned.Restore.{
  unsafe_path, SwapIo, swap_staged_tree_into_place, components, split_path, parse_parts,
  validate_relative_path, validate_manifest,
}
use backup_sync.Versioned.Restore.Swap.{Swapped, swap_staged_tree_into_place-Swapped}
use backup_sync.Versioned.Restore.Paths.{IsBelow, resolve, validate_relative_path-IsBelow}
use backup_sync.Versioned.Restore.Accepted.{IsAcceptable, validate_manifest-iff-IsAcceptable}
use backup_sync.Tests.Fixture.{digest}

-- The staged tree cannot be moved in, and the old one cannot be moved back.
abbrev stuck : SwapIo
stuck = record { aside_refused = false; move_refused = true; rollback_refused = true }

swap_staged_tree_into_place-Swapped_example :
    let r =
      swap_staged_tree_into_place {Tree = ℕ} stuck
        (record { stage = some 2; target = some 1; aside = none }) in
    Swapped {Tree = ℕ} stuck 2 (some 1) r.0 r.1
swap_staged_tree_into_place-Swapped_example = swap_staged_tree_into_place-Swapped stuck 2 (some 1)

accepted : validate_relative_path (codes "a/./b") ≡ ok tt
unfolding validate_relative_path components split_path parse_parts
accepted = refl

validate_relative_path-IsBelow_example :
    IsBelow (codes "home" ∷ []) (resolve (components (codes "a/./b")) (codes "home" ∷ []))
validate_relative_path-IsBelow_example =
    validate_relative_path-IsBelow (codes "a/./b") (codes "home" ∷ []) accepted

-- A manifest of one file.
abbrev one_file : Str → Manifest
one_file path = record {
  schema_version = 1;
  source_path = codes "/home";
  created_at_unix = pos 9;
  source_snapshot = none;
  source_snapshot_error = none;
  read_failures = [];
  entries = (path, file_entry path 3 (pos 0, 0) digest) ∷ [];
}

validate_manifest-iff-IsAcceptable_example :
    (validate_manifest (one_file (codes "a:b")) ≡ ok tt)
    ↔ All IsAcceptable (one_file (codes "a:b")).entries
validate_manifest-iff-IsAcceptable_example =
    validate_manifest-iff-IsAcceptable (one_file (codes "a:b"))

-- A file name that is one of Unix is taken for a path with a drive.
drive_like : validate_relative_path (codes "a:b") ≡ err (unsafe_path (codes "a:b"))
unfolding validate_relative_path components split_path parse_parts
drive_like = refl
