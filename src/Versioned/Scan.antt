-- ===== src/Versioned/Scan.antt =====
-- `scan_snapshot` of crates/core/src/backup/versioned/store.rs: the candidate manifest of a source.
pub mod Snapshot
pub mod Entries
pub mod Coherent
use backup_sync.Prelude.{
  ℕ, zero, suc, ◌+◌, Bool, true, false, not, ◌&&◌, ◌||◌, Option, none, some, List, [], ◌∷◌, ◌++◌,
  ◌==◌, ltb, if◌then◌else◌, Str, codes, str_eq, starts_with, length, Result, ok, err, ◌>>=◌,
}
use backup_sync.Prelude.Int.{ℤ, pos, int_eq}
use backup_sync.Map.{Map, get, insert, contains_key, str_key}
use backup_sync.Versioned.Model.{
  ManifestEntry, Manifest, ReadFailure, ReadFailurePhase, walk, metadata, hash, blob_write, kind_eq,
  ManifestEntryKind, is_file,
}
use backup_sync.Versioned.Disk.{StoreError}
use backup_sync.Versioned.Retry.{retry_with_backoff}
use backup_sync.Versioned.Compare.{WatchedKind, WatchedPath}

-- `fs::metadata`: the size, and the modification time where the system has one after the epoch.
pub record Metadata : Type 0 where
  pub len : ℕ
  pub modified : Option (ℤ × ℕ)

pub data FileType : Type 0 where
  dir file other : FileType

-- What `WalkDir` yields: an error, with the path below the root where it has one, or an item with
-- its path below the root.
pub data WalkItem : Type 0 where
  failed : Option Str → Str → WalkItem
  found : Str → FileType → WalkItem

-- The source as a scan meets it: the operations that may differ from one attempt to the next
-- take the path and the attempt.
pub record SourceView : Type 0 where
  pub items : List WalkItem
  pub stat : Str → ℕ → Result StoreError Metadata
  pub sha256_file : Str → ℕ → Result StoreError Str
  -- Seconds since an operation on a path began, at each attempt.
  pub elapsed : Str → ℕ → ℕ
  -- `globset`'s verdict on a path.
  pub is_ignored : Str → Bool
  -- `format!("{error:#}")`
  pub render : StoreError → Str

pub record ScanConfig : Type 0 where
  pub skip_hidden : Bool
  pub hashing_timeout_seconds : ℕ
  -- `retry_delays.len()`
  pub retries : ℕ

-- `str::contains`
abbrev pub text_contains : Str → Str → Bool
text_contains [] p = starts_with [] p
text_contains (c ∷ s) p = starts_with (c ∷ s) p || text_contains s p

abbrev pub replace_backslash : Str → Str
replace_backslash [] = []
replace_backslash (c ∷ s) = (if c == 92 then b'/' else c) ∷ replace_backslash s

-- `trim_start_matches("./")`
abbrev trim_dot_slash : Str → Str
trim_dot_slash (c ∷ d ∷ s) =
    let rest = trim_dot_slash s in if c == b'.' && d == b'/' then rest else c ∷ d ∷ s
trim_dot_slash s = s

unfoldable pub normalize_rel : Str → Str
normalize_rel path = trim_dot_slash (replace_backslash path)

-- A name of the path starts with a dot; the flag says that a name starts here.
abbrev hidden_from : Bool → Str → Bool
hidden_from start [] = false
hidden_from start (c ∷ s) = (start && c == b'.') || hidden_from (c == b'/') s

unfoldable pub is_hidden : Str → Bool
is_hidden rel = hidden_from true rel

-- The entry of the previous manifest with this relative path; of several, the last, as a map that
-- is collected from them holds it.
unfoldable pub prev_entry : Str → Map Str ManifestEntry → Option ManifestEntry
prev_entry rel_path [] = none
prev_entry rel_path ((k, e) ∷ m) = elim (prev_entry rel_path m) [
  | some later ↦ some later
  | none ↦ if str_eq e.rel_path rel_path then some e else none
]

abbrev pub mtime_of : Option (ℤ × ℕ) → ℤ × ℕ
mtime_of none = (pos 0, 0)
mtime_of (some t) = t

-- The previous entry tells the same length and time, and has a digest.
unfoldable pub reusable : ManifestEntry → ℕ → ℤ × ℕ → Option Str
reusable prev len mtime =
    if is_file prev.kind
      && prev.len == len
      && int_eq prev.mtime_unix mtime.0
      && prev.mtime_nanos == mtime.1
    then prev.sha256
    else none

abbrev pub reuse : Option ManifestEntry → ℕ → ℤ × ℕ → Option Str
reuse none len mtime = none
reuse (some prev) len mtime = reusable prev len mtime

abbrev pub file_entry : Str → ℕ → ℤ × ℕ → Str → ManifestEntry
file_entry rel_path len mtime sha256 = record {
  kind = ManifestEntryKind.file;
  rel_path = rel_path;
  len = len;
  mtime_unix = mtime.0;
  mtime_nanos = mtime.1;
  sha256 = some sha256;
}

abbrev pub dir_entry : Str → ManifestEntry
dir_entry rel_path = record {
  kind = ManifestEntryKind.dir;
  rel_path = rel_path;
  len = 0;
  mtime_unix = pos 0;
  mtime_nanos = 0;
  sha256 = none;
}

-- `entries.entry(k).or_insert(e)`
abbrev pub or_insert : Str → ManifestEntry → Map Str ManifestEntry → Map Str ManifestEntry
or_insert k e m = if contains_key k m then m else insert k e m

abbrev ends_with_slash : Str → Bool
ends_with_slash [] = false
ends_with_slash (c ∷ []) = c == b'/'
ends_with_slash (c ∷ d ∷ s) = ends_with_slash (d ∷ s)

-- `e.rel_path == rel_prefix`, or below it.
unfoldable pub is_under : Str → Str → Bool
is_under rel_prefix path =
    str_eq path rel_prefix
    || starts_with path (if ends_with_slash rel_prefix then rel_prefix else rel_prefix ++ b'/' ∷ [])
