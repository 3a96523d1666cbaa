-- ===== src/Versioned/Restore/Build.antt =====
-- `build_restore_tree` of crates/core/src/backup/versioned/restore.rs, with
-- `write_file_atomic_from_blob` and `restore_mtime`.
pub mod Kept
pub mod Changes
pub mod Written
pub mod Files
pub mod Directories
pub mod Restored
pub mod Runs
pub mod Complete
use backup_sync.Prelude.{
  ℕ, ◌+◌, Bool, true, false, not, ◌||◌, Option, none, some, List, [], ◌∷◌, if◌then◌else◌, Str,
  str_eq, Result, ok, err, ◌>>=◌, ◌>>◌, bail_if,
}
use backup_sync.Prelude.Int.{ℤ, pos, int_le}
use backup_sync.Prelude.Run
use backup_sync.Prelude.Run.{Run}
use backup_sync.Map.{Map, get, insert, contains_key, pair_key}
use backup_sync.Codec.Reader.{CodecError, Reader}
use backup_sync.Codec.Reader
use backup_sync.Codec.Payload.{Zstd, Aead}
use backup_sync.Codec.Blob.{BlobCipher, copy_blob_plaintext_to_writer}
use backup_sync.Versioned.Model.{ManifestEntry, is_file}
use backup_sync.Versioned.Disk.{Disk}
use backup_sync.Versioned.Restore.{RestoreError, refused, blob_undecodable, digest_mismatch}
use backup_sync.Versioned.Restore.Request.{PlannedFile, RestoreResult}
use backup_sync.Versioned.Restore.Tree.{
  Place, place_key, Node, directory, other, regular, FileTree, place_of, TreeIo, create_dir_all,
}

-- The parent of a place; the root's is not in the tree.
abbrev pub parent_of : Place → Place
parent_of [] = []
parent_of (w ∷ p) = p

-- A step of a loop over directories, and the count of those that it made.
abbrev pub count_dir : ℕ → Unit {0} → Run FileTree RestoreError ℕ
count_dir n u = Run.pure (n + 1)

-- `blob_codec`: the cipher, with the libraries; and how the blobs are opened and read, by path and
-- bytes.
pub record BlobReads : Type 0 where
  pub zstd : Zstd
  pub aead : Aead
  pub sha256_hex : Str → Str
  pub open_blob : Str × Str → Str → Result CodecError Reader

module _ (io : TreeIo) where
  unfoldable pub make_dir : ManifestEntry → ℕ → Run FileTree RestoreError ℕ
  unfolding create_dir_all
  make_dir entry n t =
      if is_file entry.kind || contains_key (place_of entry.rel_path) t
      then (ok n, t)
      else Run.◌>>=◌ (create_dir_all io (place_of entry.rel_path)) (count_dir n) t

  unfoldable pub make_dirs : Map Str ManifestEntry → ℕ → Run FileTree RestoreError ℕ
  unfolding make_dir
  make_dirs [] n = Run.pure n
  make_dirs ((key, entry) ∷ entries) n = Run.◌>>=◌ (make_dir entry n) (make_dirs entries)

  -- The time is set in place of the one that writing gave.
  abbrev pub set_time :
      Place → ℤ × ℕ → FileTree → Option Node → Result RestoreError (Unit {0}) × FileTree
  set_time p time t (some (regular content old)) =
      if io.mtime_refused p
      then (err refused, t)
      else (ok tt, insert p (regular content (some time)) t)
  set_time p time t _ = (err refused, t)

  unfoldable pub restore_mtime : Place → ℤ → ℕ → Run FileTree RestoreError (Unit {0})
  restore_mtime p mtime_unix mtime_nanos t =
      if int_le mtime_unix (pos 0)
      then (ok tt, t)
      else set_time p (mtime_unix, mtime_nanos) t (get p t)

  -- `persist`: a rename over what stands there, which a directory does not allow.
  abbrev pub rename_over :
      Place → Str → FileTree → Option Node → Result RestoreError (Unit {0}) × FileTree
  rename_over p content t (some directory) = (err refused, t)
  rename_over p content t _ =
      if io.persist_refused p then (err refused, t) else (ok tt, insert p (regular content none) t)

  module _ (reads : BlobReads) (store : Disk) (cipher : Option BlobCipher) where
    abbrev pub opened : Str × Str → Option Str → Result CodecError Reader
    opened path none = err Reader.io
    opened path (some blob) = reads.open_blob path blob

    abbrev pub decoded : Result CodecError (Str × ℕ) → Result RestoreError Str
    decoded (ok (plaintext, n)) = ok plaintext
    decoded (err e) = err (blob_undecodable e)

    -- What the temporary file holds: the plaintext that the blob decodes to, if its digest, taken
    -- while it is written, is the expected one.
    unfoldable pub checked_plaintext : PlannedFile → Result RestoreError Str
    unfolding copy_blob_plaintext_to_writer
    checked_plaintext pf = do
      plaintext ← decoded (
          copy_blob_plaintext_to_writer reads.zstd reads.aead cipher
            (opened pf.blob_path (get pf.blob_path store.blobs)) [])
      bail_if (not (str_eq (reads.sha256_hex plaintext) pf.expected_sha256))
          (digest_mismatch pf.expected_sha256 (reads.sha256_hex plaintext))
      ok plaintext

    abbrev pub place_plaintext : Place → Str → Run FileTree RestoreError (Unit {0})
    place_plaintext p plaintext t = rename_over p plaintext t (get p t)

    unfoldable pub write_file_atomic_from_blob :
        Place → PlannedFile → Run FileTree RestoreError (Unit {0})
    unfolding create_dir_all checked_plaintext
    write_file_atomic_from_blob p pf = Run.◌>>◌ (create_dir_all io (parent_of p)) (
        Run.◌>>◌ (Run.lift (bail_if (io.temp_refused p) refused))
          (Run.◌>>=◌ (Run.lift (checked_plaintext pf)) (place_plaintext p)))

    unfoldable pub write_planned : PlannedFile → Run FileTree RestoreError (Unit {0})
    unfolding write_file_atomic_from_blob restore_mtime
    write_planned pf =
        let p = place_of pf.rel_path in
        Run.◌>>◌ (create_dir_all io (parent_of p)) (
          Run.◌>>◌ (write_file_atomic_from_blob p pf)
            (restore_mtime p pf.mtime_unix pf.mtime_nanos))

    unfoldable pub write_files : List PlannedFile → ℕ → Run FileTree RestoreError ℕ
    unfolding write_planned
    write_files [] n = Run.pure n
    write_files (pf ∷ planned) n =
        Run.◌>>=◌ (write_planned pf) (λ (u : Unit {0}). write_files planned (n + 1))

    abbrev pub build_result : ℕ → ℕ → Run FileTree RestoreError RestoreResult
    build_result dirs files =
        Run.pure (record { files_written = files; files_removed = 0; dirs_created = dirs })

    abbrev pub files_after : List PlannedFile → ℕ → Run FileTree RestoreError RestoreResult
    files_after planned dirs = Run.◌>>=◌ (write_files planned 0) (build_result dirs)

    abbrev pub dirs_after :
        Map Str ManifestEntry → List PlannedFile → Run FileTree RestoreError RestoreResult
    dirs_after entries planned = Run.◌>>=◌ (make_dirs entries 0) (files_after planned)

    unfoldable pub build_restore_tree :
        Map Str ManifestEntry → List PlannedFile → Run FileTree RestoreError RestoreResult
    unfolding create_dir_all make_dirs write_files
    build_restore_tree entries planned =
        Run.◌>>◌ (create_dir_all io []) (dirs_after entries planned)
