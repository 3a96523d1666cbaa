-- ===== src/Versioned/Scan/Coherent.antt =====
-- The form of the candidate manifest of `scan_snapshot` (store.rs).
use mathlib.Core.Path.{subst}
use backup_sync.Prelude.{
  ℕ, ◌-◌, ◌≡◌, refl, inl, inr, true, ◌&&◌, ◌||◌, Option, none, some, List, [], ◌∷◌, arith, Str,
  str_eq, Result, ok, err, ◌>>=◌, Bool-cases,
}
use backup_sync.Prelude.Int.{ℤ}
use backup_sync.Map.{Map, get, insert, str_key, get-In}
use backup_sync.Versioned.Model.{ManifestEntry, Manifest}
use backup_sync.Versioned.Disk.{StoreError, is_lower_hex_sha256}
use backup_sync.Versioned.Retry.{retry_with_backoff, retry_with_backoff-IsFirstSuccess}
use backup_sync.Versioned.Compare.{WatchedKind}
use backup_sync.Versioned.Scan.{
  Metadata, FileType, dir, file, other, WalkItem, failed, found, SourceView, ScanConfig,
  normalize_rel, is_hidden, prev_entry, mtime_of, reuse, reusable, file_entry, dir_entry,
}
use backup_sync.Versioned.Scan.Snapshot.{
  Scanned, entries_of, carry_forward_prev_prefix, carry_forward_entry, scan_one_file, scan_file,
  scan_item, scan_items, scan_entries, or_walk_error, hash_file, scanned_file, scan_found,
}
use backup_sync.Versioned.Scan.Entries.{
  EntryOk, IsCoherent, nil-IsCoherent, insert-IsCoherent, carry_entries-IsCoherent, prev_entry-hex,
}

-- The digests that `hashing::sha256_file` gives name blobs, and the previous manifest is coherent.
module _ (cfg : ScanConfig) (view : SourceView) (prev : Option Manifest)
    (hex : (path : Str) (i : ℕ) (h : Str)
      → view.sha256_file path i ≡ ok h
      → is_lower_hex_sha256 h ≡ true)
    (prev_ok : IsCoherent (entries_of prev)) where
  file_entry-EntryOk :
      (rel_path : Str) (len : ℕ) (mtime : ℤ × ℕ) (h : Str)
      → is_lower_hex_sha256 h ≡ true
      → EntryOk rel_path (file_entry rel_path len mtime h)
  file_entry-EntryOk rel_path len mtime h ok_h =
      (refl, λ j e. let same : h ≡ j = ground arith in rw same at ok_h)

  digest_of_retry-EntryOk :
      (abs_path rel_path : Str) (len : ℕ) (mtime : ℤ × ℕ) (r : Result StoreError (Str × ℕ))
      → ((h : Str) (n : ℕ) → r ≡ ok (h, n) → is_lower_hex_sha256 h ≡ true)
      → (e : ManifestEntry) → (r >>= λ t. ok (file_entry rel_path len mtime t.0)) ≡ ok e
      → EntryOk rel_path e
  digest_of_retry-EntryOk abs_path rel_path len mtime (ok (h, n)) digest e p =
      let same : file_entry rel_path len mtime h ≡ e = ground arith in
      subst (EntryOk rel_path) same (file_entry-EntryOk rel_path len mtime h (digest h n refl))
  digest_of_retry-EntryOk abs_path rel_path len mtime (err x) digest e p = cc

  reuse-hex :
      (rel_path : Str) (found : Option ManifestEntry) (len : ℕ) (mtime : ℤ × ℕ)
      → prev_entry rel_path (entries_of prev) ≡ found
      → (h : Str) → reuse found len mtime ≡ some h
      → is_lower_hex_sha256 h ≡ true
  unfolding reusable
  reuse-hex rel_path none len mtime q h p = cc
  reuse-hex rel_path (some d) len mtime q h p =
      prev_entry-hex rel_path (entries_of prev) prev_ok.entries d q h (ground (arith, p))

  hash_file-EntryOk :
      (abs_path rel_path : Str) (len : ℕ) (mtime : ℤ × ℕ) (known : Option Str)
      → ((h : Str) → known ≡ some h → is_lower_hex_sha256 h ≡ true)
      → (e : ManifestEntry) → hash_file cfg view prev abs_path rel_path len mtime known ≡ ok e
      → EntryOk rel_path e
  hash_file-EntryOk abs_path rel_path len mtime (some h) known_ok e p =
      let same : file_entry rel_path len mtime h ≡ e = ground arith in
      subst (EntryOk rel_path) same (file_entry-EntryOk rel_path len mtime h (known_ok h refl))
  hash_file-EntryOk abs_path rel_path len mtime none known_ok e p =
      digest_of_retry-EntryOk abs_path rel_path len mtime
        (retry_with_backoff cfg.hashing_timeout_seconds (view.elapsed abs_path)
          (view.sha256_file abs_path) cfg.retries)
        (λ h n q.
          let first =
            retry_with_backoff-IsFirstSuccess cfg.hashing_timeout_seconds (view.elapsed abs_path)
              (view.sha256_file abs_path) cfg.retries h n q in
          hex abs_path (n - 1) h first.succeeded)
        e p

  scanned-EntryOk :
      (abs_path rel_path : Str) (r : Result StoreError (Metadata × ℕ)) (e : ManifestEntry)
      → (r >>= λ t.
          hash_file cfg view prev abs_path rel_path
            (t.0).len
            (mtime_of (t.0).modified)
            (reuse (prev_entry rel_path (entries_of prev)) (t.0).len (mtime_of (t.0).modified)))
        ≡ ok e
      → EntryOk rel_path e
  scanned-EntryOk abs_path rel_path (ok (meta, n)) e p =
      hash_file-EntryOk abs_path rel_path meta.len (mtime_of meta.modified)
        (reuse (prev_entry rel_path (entries_of prev)) meta.len (mtime_of meta.modified))
        (λ h q.
          reuse-hex rel_path (prev_entry rel_path (entries_of prev)) meta.len
            (mtime_of meta.modified) refl h q)
        e p
  scanned-EntryOk abs_path rel_path (err x) e p = cc

  -- A file that is scanned has an entry under its path, with a digest of the form that names a
  -- blob: one that a hashing attempt gave, or that of the previous entry.
  scan_one_file-EntryOk :
      (abs_path rel_path : Str) (e : ManifestEntry)
      → scan_one_file cfg view prev abs_path rel_path ≡ ok e
      → EntryOk rel_path e
  unfolding scan_one_file
  scan_one_file-EntryOk abs_path rel_path e p =
      scanned-EntryOk abs_path rel_path
        (retry_with_backoff cfg.hashing_timeout_seconds (view.elapsed abs_path) (view.stat abs_path)
          cfg.retries)
        e p

  carried-IsCoherent :
      (rel_path : Str) (found : Option ManifestEntry) (entries : Map Str ManifestEntry)
      → get rel_path (entries_of prev) ≡ found
      → IsCoherent entries
      → IsCoherent (elim found [ none ↦ entries | some e ↦ insert rel_path e entries ])
  carried-IsCoherent rel_path none entries q c = c
  carried-IsCoherent rel_path (some e) entries q c =
      insert-IsCoherent rel_path e entries
        (prev_ok.entries rel_path e (get-In rel_path e (entries_of prev) q)) c

  carry_forward_entry-IsCoherent :
      (rel_path : Str) (entries : Map Str ManifestEntry)
      → IsCoherent entries
      → IsCoherent (carry_forward_entry prev rel_path entries)
  unfolding carry_forward_entry
  carry_forward_entry-IsCoherent rel_path entries c =
      carried-IsCoherent rel_path (get rel_path (entries_of prev)) entries refl c

  carry_forward_prev_prefix-IsCoherent :
      (rel_prefix : Str) (entries : Map Str ManifestEntry)
      → IsCoherent entries
      → IsCoherent (carry_forward_prev_prefix prev rel_prefix entries)
  unfolding carry_forward_prev_prefix
  carry_forward_prev_prefix-IsCoherent rel_prefix entries c =
      elim (Bool-cases (str_eq rel_prefix [] || str_eq rel_prefix (or_walk_error none))) [
        | inl skip ↦ rw skip c
        | inr go ↦
            rw go (carry_entries-IsCoherent rel_prefix (entries_of prev) entries prev_ok.entries c)
      ]

  scanned_file-IsCoherent :
      (rel_path : Str) (s : Scanned) (r : Result StoreError ManifestEntry)
      → ((e : ManifestEntry) → r ≡ ok e → EntryOk rel_path e)
      → IsCoherent s.entries
      → IsCoherent (scanned_file cfg view prev rel_path s r).entries
  scanned_file-IsCoherent rel_path s (ok e) h c =
      insert-IsCoherent rel_path e s.entries (h e refl) c
  scanned_file-IsCoherent rel_path s (err x) h c =
      carry_forward_entry-IsCoherent rel_path s.entries c

  scan_file-IsCoherent :
      (abs_path rel_path : Str) (s : Scanned)
      → IsCoherent s.entries
      → IsCoherent (scan_file cfg view prev abs_path rel_path s).entries
  unfolding scan_file
  scan_file-IsCoherent abs_path rel_path s c =
      scanned_file-IsCoherent rel_path s (scan_one_file cfg view prev abs_path rel_path)
        (scan_one_file-EntryOk abs_path rel_path) c

  scan_found-IsCoherent :
      (rel : Str) (t : FileType) (s : Scanned)
      → IsCoherent s.entries
      → IsCoherent (scan_found cfg view prev rel t s).entries
  scan_found-IsCoherent rel dir s c =
      insert-IsCoherent (normalize_rel rel) (dir_entry (normalize_rel rel)) s.entries
        (refl, λ h p. cc) c
  scan_found-IsCoherent rel file s c = scan_file-IsCoherent rel (normalize_rel rel) s c
  scan_found-IsCoherent rel other s c = c

  scan_item-IsCoherent :
      (item : WalkItem) (s : Scanned)
      → IsCoherent s.entries
      → IsCoherent (scan_item cfg view prev item s).entries
  unfolding scan_item
  scan_item-IsCoherent (failed path message) s c =
      carry_forward_prev_prefix-IsCoherent (or_walk_error path) s.entries c
  scan_item-IsCoherent (found rel file_type) s c =
      elim (Bool-cases
        (str_eq rel [] || (cfg.skip_hidden && is_hidden rel) || view.is_ignored rel)) [
          | inl skip ↦ rw skip c
          | inr keep ↦ rw keep (scan_found-IsCoherent rel file_type s c)
        ]

  scan_items-IsCoherent :
      (items : List WalkItem) (s : Scanned)
      → IsCoherent s.entries
      → IsCoherent (scan_items cfg view prev items s).entries
  unfolding scan_items
  scan_items-IsCoherent [] s c = c
  scan_items-IsCoherent (item ∷ items) s c =
      scan_items-IsCoherent items (scan_item cfg view prev item s) (scan_item-IsCoherent item s c)

  -- Where `hashing::sha256_file` gives only digests in lower-case hex, and the entries of the
  -- previous manifest are coherent, so are those of the candidate, whatever fails on the way: its
  -- paths come in order and once, each entry is kept under its own path, and every digest has the
  -- form that names a blob.
  pub scan_entries-IsCoherent :
      (kind : WatchedKind) (name : Str) → IsCoherent (scan_entries cfg view prev kind name).entries
  unfolding scan_entries
  scan_entries-IsCoherent WatchedKind.file name =
      scan_file-IsCoherent [] name (record { entries = []; read_failures = [] }) nil-IsCoherent
  scan_entries-IsCoherent WatchedKind.directory name =
      scan_items-IsCoherent view.items (record { entries = []; read_failures = [] }) nil-IsCoherent
