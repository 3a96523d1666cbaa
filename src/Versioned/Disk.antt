-- ===== src/Versioned/Disk.antt =====
-- A destination's store on disk, and how crates/core/src/backup/versioned/store.rs reads and
-- changes it.
use backup_sync.Prelude.{
  ℕ, Bool, ◌&&◌, ◌||◌, Option, none, some, List, [], ◌==◌, leb, if◌then◌else◌, Str, codes, length,
  all, take, Result,
}
use backup_sync.Prelude.Int.{ℤ}
use backup_sync.Map.{Map, get, contains_key, str_key, pair_key}
use backup_sync.Versioned.Model.{VersionIndex, Manifest, ReadFailure, SourceSnapshotInfo}
use backup_sync.Versioned.Validation.{IndexError}

pub data StoreError : Type 0 where
  -- A durable write, a directory, or a removal that the file system refused.
  io_failed : Str → StoreError
  -- A file that exists and cannot be read or parsed.
  unreadable : Str → StoreError
  unsafe_index : IndexError → StoreError
  invalid_hash : Str → StoreError
  -- The plaintext of a written blob has another digest than the one expected.
  digest_mismatch : Str → Str → StoreError
  timed_out : ℕ → StoreError
  -- All attempts failed; the error of the last one, if any.
  no_error_captured : StoreError
  no_fresh_id : StoreError
  -- A watched path's destination id, with no destination of that id.
  missing_destination : Str → StoreError
  -- The free bytes of a destination, below the configured minimum.
  below_minimum : Str → ℕ → ℕ → StoreError

-- `last_scan_report.json`
pub record LastScanReport : Type 0 where
  pub schema_version : ℕ
  pub source_path : Str
  pub created_at_unix : ℤ
  pub committed_version_id : Option Str
  pub source_snapshot : Option SourceSnapshotInfo
  pub source_snapshot_error : Option Str
  pub read_failures : List ReadFailure

-- `index.json`: absent, present and not an index, or an index.
pub data IndexFile : Type 0 where
  absent corrupt : IndexFile
  index_file : VersionIndex → IndexFile

-- `sources/<source_id>`. A manifest file is `none` where it cannot be read or parsed.
pub record SourceStore : Type 0 where
  pub manifests : Map Str (Option Manifest)
  pub index : IndexFile
  pub scan_report : Option LastScanReport

-- The blobs by directory and name, with the bytes of each file.
pub record Disk : Type 0 where
  -- The directory `sources` itself.
  pub sources_exist : Bool
  pub sources : Map Str SourceStore
  pub blobs : Map (Str × Str) Str

abbrev pub no_source : SourceStore
no_source = record { manifests = []; index = absent; scan_report = none }

abbrev pub or_no_source : Option SourceStore → SourceStore
or_no_source none = no_source
or_no_source (some s) = s

-- A source's directory; one that is not there reads as an empty one.
abbrev pub source_of : Disk → Str → SourceStore
source_of d id = or_no_source (get id d.sources)

unfoldable pub is_lower_hex_byte : ℕ → Bool
is_lower_hex_byte b = (leb b'0' b && leb b b'9') || (leb b'a' b && leb b b'f')

unfoldable pub is_lower_hex_sha256 : Str → Bool
unfolding is_lower_hex_byte
is_lower_hex_sha256 hash = length hash == 64 && all is_lower_hex_byte hash

-- What the engine takes from `sha2` and from the blob codec: the digest of some bytes, and the
-- digest of the plaintext that a blob file's bytes decode to.
pub record Hashing : Type 0 where
  pub sha256_hex : Str → Str
  pub sha256_plaintext_blob : Str → Result StoreError Str

module _ (hashing : Hashing) where
  unfoldable pub blob_path : Str → Str × Str
  blob_path hash =
      if is_lower_hex_sha256 hash
      then (take 2 hash, hash)
      else (codes "__invalid__", hashing.sha256_hex hash)

  -- `blob_path(...).exists()`
  abbrev pub blob_exists : Disk → Str → Bool
  blob_exists d hash = contains_key (blob_path hash) d.blobs
