-- ===== src/Versioned/Model.antt =====
-- crates/core/src/backup/versioned/model.rs: what the store keeps on disk, as records.
use backup_sync.Prelude.{ℕ, Bool, true, false, Option, List, Str}
use backup_sync.Prelude.Int.{ℤ}
use backup_sync.Map.{Map}

pub record VersionInfo : Type 0 where
  pub id : Str
  pub created_at_unix : ℤ

pub record VersionIndex : Type 0 where
  pub schema_version : ℕ
  pub source_path : Str
  pub versions : List VersionInfo
  pub safety_pinned_version_id : Option Str
  pub safety_pending_version_id : Option Str
  pub safety_pending_first_seen_unix : Option ℤ

pub data ReadFailurePhase : Type 0 where
  walk metadata hash blob_write : ReadFailurePhase

pub record ReadFailure : Type 0 where
  pub rel_path : Str
  pub phase : ReadFailurePhase
  pub attempts : ℕ
  pub message : Str

pub data ManifestEntryKind : Type 0 where
  file dir : ManifestEntryKind

abbrev pub is_file : ManifestEntryKind → Bool
is_file file = true
is_file dir = false

-- The derived `PartialEq`.
abbrev pub kind_eq : ManifestEntryKind → ManifestEntryKind → Bool
kind_eq file file = true
kind_eq dir dir = true
kind_eq _ _ = false

pub record ManifestEntry : Type 0 where
  pub kind : ManifestEntryKind
  pub rel_path : Str
  pub len : ℕ
  pub mtime_unix : ℤ
  pub mtime_nanos : ℕ
  pub sha256 : Option Str

-- Of crates/core/src/fs/snapshots/mod.rs.
pub record SourceSnapshotInfo : Type 0 where
  pub provider : Str
  pub id : Option Str
  pub created_at_unix : ℤ

pub record Manifest : Type 0 where
  pub schema_version : ℕ
  pub source_path : Str
  pub created_at_unix : ℤ
  pub source_snapshot : Option SourceSnapshotInfo
  pub source_snapshot_error : Option Str
  pub read_failures : List ReadFailure
  pub entries : Map Str ManifestEntry
