-- ===== src/Versioned/Scan/Snapshot.antt =====
-- The walk of `scan_snapshot`, with `scan_one_file` and `carry_forward_prev_prefix`.
use backup_sync.Prelude.{
  ℕ, ◌+◌, ◌&&◌, ◌||◌, Option, none, some, List, [], ◌∷◌, ◌++◌, if◌then◌else◌, Str, codes, str_eq,
  Result, ok, err, ◌>>=◌,
}
use backup_sync.Prelude.Int.{ℤ}
use backup_sync.Map.{Map, get, insert, str_key}
use backup_sync.Versioned.Model.{
  ManifestEntry, Manifest, ReadFailure, ReadFailurePhase, walk, metadata, hash,
}
use backup_sync.Versioned.Disk.{StoreError}
use backup_sync.Versioned.Retry.{retry_with_backoff}
use backup_sync.Versioned.Compare.{WatchedKind}
use backup_sync.Versioned.Scan.{
  FileType, dir, file, other, WalkItem, failed, found, SourceView, ScanConfig, text_contains,
  normalize_rel, is_hidden, prev_entry, mtime_of, reuse, file_entry, dir_entry, or_insert, is_under,
}

-- What the walk has gathered.
pub record Scanned : Type 0 where
  pub entries : Map Str ManifestEntry
  pub read_failures : List ReadFailure

abbrev pub entries_of : Option Manifest → Map Str ManifestEntry
entries_of none = []
entries_of (some m) = m.entries

unfoldable pub carry_entries :
    Str → Map Str ManifestEntry → Map Str ManifestEntry → Map Str ManifestEntry
carry_entries rel_prefix [] entries = entries
carry_entries rel_prefix ((k, e) ∷ prev) entries =
    carry_entries rel_prefix prev
      (if is_under rel_prefix e.rel_path then or_insert e.rel_path e entries else entries)

abbrev walk_error : Str
walk_error = codes "<walk_error>"

abbrev pub or_walk_error : Option Str → Str
or_walk_error none = walk_error
or_walk_error (some path) = normalize_rel path

unfoldable pub carry_forward_prev_prefix :
    Option Manifest → Str → Map Str ManifestEntry → Map Str ManifestEntry
unfolding carry_entries
carry_forward_prev_prefix prev rel_prefix entries =
    if str_eq rel_prefix [] || str_eq rel_prefix walk_error
    then entries
    else carry_entries rel_prefix (entries_of prev) entries

-- `entries.insert(k, e)` where the previous manifest has an entry for the path.
unfoldable pub carry_forward_entry :
    Option Manifest → Str → Map Str ManifestEntry → Map Str ManifestEntry
carry_forward_entry prev rel_path entries = elim (get rel_path (entries_of prev)) [
  | none ↦ entries
  | some e ↦ insert rel_path e entries
]

unfoldable pub classify_scan_failure : Str → ReadFailurePhase
classify_scan_failure msg =
    if text_contains msg (codes "failed to stat file") || text_contains msg (codes "metadata")
    then metadata
    else hash

module _ (cfg : ScanConfig) (view : SourceView) (prev : Option Manifest) where
  -- The digest of the previous entry, or else of the file's bytes.
  abbrev pub hash_file : Str → Str → ℕ → ℤ × ℕ → Option Str → Result StoreError ManifestEntry
  hash_file abs_path rel_path len mtime (some sha256) = ok (file_entry rel_path len mtime sha256)
  hash_file abs_path rel_path len mtime none = do
    (sha256, _) ←
        retry_with_backoff cfg.hashing_timeout_seconds (view.elapsed abs_path)
          (view.sha256_file abs_path) cfg.retries
    ok (file_entry rel_path len mtime sha256)

  unfoldable pub scan_one_file : Str → Str → Result StoreError ManifestEntry
  scan_one_file abs_path rel_path = do
    (meta, _) ←
        retry_with_backoff cfg.hashing_timeout_seconds (view.elapsed abs_path) (view.stat abs_path)
          cfg.retries
    let mtime = mtime_of meta.modified
    hash_file abs_path rel_path meta.len mtime
        (reuse (prev_entry rel_path (entries_of prev)) meta.len mtime)

  -- A file is entered, or its failure is recorded and its previous entry kept.
  abbrev pub scanned_file : Str → Scanned → Result StoreError ManifestEntry → Scanned
  scanned_file rel_path s (ok entry) = record s { entries = insert rel_path entry s.entries }
  scanned_file rel_path s (err error) =
      let message = view.render error in
      record {
        entries = carry_forward_entry prev rel_path s.entries;
        read_failures =
            s.read_failures
            ++ record {
              rel_path = rel_path;
              phase = classify_scan_failure message;
              attempts = cfg.retries + 1;
              message = message;
            }
              ∷ [];
      }

  unfoldable pub scan_file : Str → Str → Scanned → Scanned
  unfolding scan_one_file carry_forward_entry classify_scan_failure
  scan_file abs_path rel_path s = scanned_file rel_path s (scan_one_file abs_path rel_path)

  abbrev pub scan_found : Str → FileType → Scanned → Scanned
  scan_found rel dir s = record s {
    entries = insert (normalize_rel rel) (dir_entry (normalize_rel rel)) s.entries;
  }
  scan_found rel file s = scan_file rel (normalize_rel rel) s
  scan_found rel other s = s

  unfoldable pub scan_item : WalkItem → Scanned → Scanned
  unfolding scan_file carry_forward_prev_prefix
  scan_item (failed path message) s = record {
    entries = carry_forward_prev_prefix prev (or_walk_error path) s.entries;
    read_failures =
        s.read_failures
        ++ record { rel_path = or_walk_error path; phase = walk; attempts = 1; message = message }
          ∷ [];
  }
  scan_item (found rel file_type) s =
      if str_eq rel [] || (cfg.skip_hidden && is_hidden rel) || view.is_ignored rel
      then s
      else scan_found rel file_type s

  unfoldable pub scan_items : List WalkItem → Scanned → Scanned
  unfolding scan_item
  scan_items [] s = s
  scan_items (item ∷ items) s = scan_items items (scan_item item s)

  -- `name` is the file name of the watched path.
  unfoldable pub scan_entries : WatchedKind → Str → Scanned
  unfolding scan_items
  scan_entries WatchedKind.file name =
      scan_file [] name (record { entries = []; read_failures = [] })
  scan_entries WatchedKind.directory name =
      scan_items view.items (record { entries = []; read_failures = [] })
