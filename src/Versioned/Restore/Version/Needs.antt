-- ===== src/Versioned/Restore/Version/Needs.antt =====
-- What `restore_version` (restore.rs) needs to succeed, step by step.
use backup_sync.Prelude.{
  ℕ, ◌≤◌, ◌≡◌, refl, Bool, true, false, Option, none, some, List, [], ◌∷◌, arith, Str, ltb, Result,
  ok, err,
}
use backup_sync.Prelude.Run.{Runs}
use backup_sync.Map.{Map, str_key}
use backup_sync.Codec.Encode.{sat_add}
use backup_sync.Codec.Blob.{BlobCodec}
use backup_sync.Versioned.Model.{ManifestEntry, Manifest}
use backup_sync.Versioned.Disk.{Disk, Hashing}
use backup_sync.Versioned.Restore.{
  Missing, RestoreError, missing_content, Places, SwapIo, swap_staged_tree_into_place,
  validate_manifest,
}
use backup_sync.Versioned.Restore.Plan.{
  Preflight, no_preflight, plan_entries, or_missing_content, ensure_restore_free_space,
  above_minimum,
}
use backup_sync.Versioned.Restore.Request.{RestoreConfig}
use backup_sync.Versioned.Restore.Plan.Planned.{planned_files}
use backup_sync.Versioned.Restore.Tree.{FileTree}
use backup_sync.Versioned.Restore.Build.Files.{Apart}
use backup_sync.Versioned.Restore.Build.Runs.{IsWilling, Compatible}
use backup_sync.Versioned.Restore.Machine.{
  RestoreIo, is_blocked, count_extraneous_files, removed_by,
}

-- Nothing is refused, a lease and the key are had.
pub record IsHelpful (codec : BlobCodec) (io : RestoreIo) : Type 0 where
  pub lease : io.lease ≡ ok tt
  pub parent : io.parent_refused ≡ false
  pub key : io.codec ≡ ok codec
  pub walk : io.walk_refused ≡ false
  pub tree : IsWilling io.tree
  pub aside : io.swap.aside_refused ≡ false
  pub move : io.swap.move_refused ≡ false

-- The target is free or a directory, and the places beside it are free.
pub record IsReady (p : Places FileTree) : Type 0 where
  pub target : is_blocked p.target ≡ false
  pub stage : p.stage ≡ none
  pub aside : p.aside ≡ none

-- What the restore asks of a manifest: its paths are safe and do not get in each other's way, and
-- there is room for its files, with the buffer, and as much as is to stay free.
pub record IsRestorable (cfg : RestoreConfig) (hashing : Hashing) (store : Disk) (free : ℕ)
    (manifest : Manifest) : Type 0 where
  pub valid : validate_manifest manifest ≡ ok tt
  pub compatible : Compatible manifest.entries
  pub apart : Apart (planned_files hashing manifest.entries)
  pub room :
      sat_add
        (plan_entries cfg hashing store manifest.entries no_preflight).total_bytes
        cfg.free_space_safety_buffer_bytes
      ≤ free
  pub minimum : (m : ℕ) → cfg.min_free_space_bytes ≡ some m → m ≤ free

pub swap-Runs :
    (io : SwapIo) (t : FileTree) (old : Option FileTree) (a : Option FileTree)
    → io.aside_refused ≡ false
    → io.move_refused ≡ false
    → Runs (swap_staged_tree_into_place io (record { stage = some t; target = old; aside = a })).0
unfolding swap_staged_tree_into_place
swap-Runs io t none a p q = rw q (_, refl)
swap-Runs io t (some old) a p q = rw (p, q) (_, refl)

pub above_minimum_runs :
    (o : Option ℕ) (free : ℕ) → ((m : ℕ) → o ≡ some m → m ≤ free) → above_minimum o free ≡ ok tt
above_minimum_runs none free h = refl
above_minimum_runs (some m) free h =
    let enough : ltb free m ≡ false = ground (arith, h m refl) in rw enough

pub has_room :
    (cfg : RestoreConfig) (free required : ℕ)
    → sat_add required cfg.free_space_safety_buffer_bytes ≤ free
    → ((m : ℕ) → cfg.min_free_space_bytes ≡ some m → m ≤ free)
    → ensure_restore_free_space cfg (ok free) required ≡ ok tt
unfolding ensure_restore_free_space
has_room cfg free required room minimum =
    let fits : ltb free (sat_add required cfg.free_space_safety_buffer_bytes) ≡ false =
      ground (arith, room) in
    rw fits (above_minimum_runs cfg.min_free_space_bytes free minimum)

pub or_missing_content_runs : (s : Preflight) → s.missing ≡ [] → or_missing_content s ≡ ok s
or_missing_content_runs s h = go s.missing h
  where
    go :
        (m : List Missing)
        → m ≡ []
        → ◌≡◌ {A = Result RestoreError Preflight}
            (elim m [ [] ↦ ok s | x ∷ xs ↦ err (missing_content (x ∷ xs)) ])
            (ok s)
    go [] e = refl
    go (x ∷ xs) e = cc

pub removed-Runs :
    (io : RestoreIo) (place : Bool) (target : Option FileTree) (entries : Map Str ManifestEntry)
    → io.walk_refused ≡ false
    → Runs (removed_by io place target entries)
unfolding count_extraneous_files
removed-Runs io true (some root) entries h = rw h (_, refl)
removed-Runs io true none entries h = (0, refl)
removed-Runs io false target entries h = (0, refl)
