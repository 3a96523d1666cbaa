-- ===== src/Versioned/Compare.antt =====
-- Comparing manifests: `manifests_equivalent` and `diff_for_simulation` of
-- crates/core/src/backup/versioned/store.rs, and `redact_path` of crates/core/src/logging/mod.rs.
pub mod Overlap
pub mod Preview
use backup_sync.Prelude.{
  ℕ, zero, suc, ◌+◌, ◌-◌, ◌≡◌, Bool, true, false, not, ◌&&◌, ◌||◌, Option, none, some, List, [],
  ◌∷◌, ◌++◌, ◌==◌, ltb, if◌then◌else◌, Str, codes, str_eq, starts_with, length, drop, min,
}
use backup_sync.Map.{Map, get, contains_key, str_key}
use backup_sync.Versioned.Model.{ManifestEntry, Manifest, kind_eq, is_file}

abbrev pub option_eq : Option Str → Option Str → Bool
option_eq none none = true
option_eq (some s) (some t) = str_eq s t
option_eq _ _ = false

-- The tests of `manifests_equivalent` on two entries of one path.
abbrev pub differs : ManifestEntry → ManifestEntry → Bool
differs prev_e e =
    not (kind_eq prev_e.kind e.kind) || (is_file e.kind && not (option_eq prev_e.sha256 e.sha256))

unfoldable pub all_same : Map Str ManifestEntry → Map Str ManifestEntry → Bool
all_same prev [] = true
all_same prev ((k, v) ∷ next) =
    let rest = all_same prev next in
    elim (get k prev) [ none ↦ false | some prev_e ↦ if differs prev_e v then false else rest ]

unfoldable pub manifests_equivalent : Manifest → Manifest → Bool
unfolding all_same
manifests_equivalent prev next =
    if length prev.entries == length next.entries then all_same prev.entries next.entries else false

pub data WatchedKind : Type 0 where
  file directory : WatchedKind

pub record WatchedPath : Type 0 where
  pub path : Str
  pub kind : WatchedKind
  pub enabled : Bool
  pub destination_id : Str
  pub max_backups_per_file : Option ℕ

-- `Path::join` with a relative path.
abbrev pub join : Str → Str → Str
join base rel = base ++ b'/' ∷ rel

abbrev pub source_file : WatchedKind → Str → Str → Str
source_file file root rel_path = root
source_file directory root rel_path = join root rel_path

-- `~` in place of the home directory, where the system has one.
unfoldable pub redact_path : Option Str → Str → Str
redact_path none raw = raw
redact_path (some home) raw = if starts_with raw home then b'~' ∷ drop (length home) raw else raw

unfoldable pub format_change_sample : Option Str → ℕ → WatchedPath → Str → Str
unfolding redact_path
format_change_sample home prefix watched rel_path =
    prefix ∷ b' ' ∷ redact_path home (source_file watched.kind watched.path rel_path)

pub record Diff : Type 0 where
  pub adds : ℕ
  pub modifies : ℕ
  pub deletes : ℕ
  pub blobs_to_write : ℕ
  pub bytes_to_write : ℕ
  pub sample : List Str

abbrev pub no_diff : Diff
no_diff = record {
  adds = 0;
  modifies = 0;
  deletes = 0;
  blobs_to_write = 0;
  bytes_to_write = 0;
  sample = [];
}

-- The largest `u64`.
abbrev pub u64_max : ℕ
u64_max = 18446744073709551615

-- `saturating_add` on `u64`.
abbrev pub saturating_add : ℕ → ℕ → ℕ
saturating_add a b = min (a + b) u64_max

pub data Change : Type 0 where
  added modified unchanged : Change

abbrev pub change_of : Option ManifestEntry → ManifestEntry → Change
change_of none entry = added
change_of (some prev_e) entry =
    if not (kind_eq prev_e.kind entry.kind)
      || (is_file entry.kind && not (option_eq prev_e.sha256 entry.sha256))
    then modified
    else unchanged

-- What the loops count does not depend on the blobs that `exists` finds, but for the writes.
module _ (home : Option Str) (exists : Str → Bool) (watched : WatchedPath) (sample_limit : ℕ) where
  unfoldable pub push_sample : ℕ → Str → Diff → Diff
  unfolding format_change_sample
  push_sample prefix rel_path d =
      if ltb (length d.sample) sample_limit
      then record d { sample = d.sample ++ format_change_sample home prefix watched rel_path ∷ [] }
      else d

  unfoldable pub count_blob : ManifestEntry → Diff → Diff
  count_blob entry d = elim entry.sha256 [
    | none ↦ d
    | some hash ↦
        if is_file entry.kind && not (exists hash)
        then record d {
          blobs_to_write = d.blobs_to_write + 1;
          bytes_to_write = saturating_add d.bytes_to_write entry.len;
        }
        else d
  ]

  -- One entry of the next manifest, with the entry of that path before.
  unfoldable pub count_entry : Option ManifestEntry → ManifestEntry → Diff → Diff
  unfolding push_sample count_blob
  count_entry prev_e entry d = elim (change_of prev_e entry) [
    | added ↦ push_sample b'+' entry.rel_path (count_blob entry (record d { adds = d.adds + 1 }))
    | modified ↦
        push_sample b'~' entry.rel_path (count_blob entry (record d { modifies = d.modifies + 1 }))
    | unchanged ↦ d
  ]

  unfoldable pub count_changes : Map Str ManifestEntry → Map Str ManifestEntry → Diff → Diff
  unfolding count_entry
  count_changes prev [] d = d
  count_changes prev ((k, entry) ∷ next) d =
      count_changes prev next (count_entry (get k prev) entry d)

  unfoldable pub count_deletes : Map Str ManifestEntry → Map Str ManifestEntry → Diff → Diff
  unfolding push_sample
  count_deletes next [] d = d
  count_deletes next ((k, prev_entry) ∷ prev) d = count_deletes next prev (
      if contains_key k next
      then d
      else push_sample b'-' prev_entry.rel_path (record d { deletes = d.deletes + 1 }))

  unfoldable pub diff_for_simulation : Option Manifest → Manifest → Diff
  unfolding count_changes count_deletes
  diff_for_simulation none next = count_changes [] next.entries no_diff
  diff_for_simulation (some prev) next =
      count_deletes next.entries prev.entries (count_changes prev.entries next.entries no_diff)
