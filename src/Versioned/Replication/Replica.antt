-- ===== src/Versioned/Replication/Replica.antt =====
-- The replica of a source in crates/core/src/backup/versioned/replication.rs: its files, and what is
-- counted and written.
use backup_sync.Prelude.{
  ℕ, suc, Bool, true, false, not, ◌&&◌, Option, some, List, Str, str_eq, length, any, Result, ok,
  err,
}
use backup_sync.Prelude.Run.{Run}
use backup_sync.Map.{Map, insert, str_key, pair_key}
use backup_sync.Codec.Encode.{sat_add}
use backup_sync.Versioned.Model.{VersionInfo, VersionIndex, Manifest}
use backup_sync.Versioned.Disk.{Hashing}
use backup_sync.Versioned.Replication.{
  ReplicationError, copy_failed, unreadable, FileOnDisk, file, SourceFiles,
}

-- What a replication takes from elsewhere: the codec's digests, the parsers, and which writes and
-- removals the file system refuses.
pub record ReplicaIo : Type 0 where
  pub hashing : Hashing
  pub parse_manifest : Str → Option Manifest
  pub parse_index : Str → Option VersionIndex
  pub manifest_refused : Str → Bool
  pub blob_refused : Str → Bool
  pub report_refused : Bool
  pub index_refused : Bool
  pub removal_refused : Str → Bool

-- `runtime.replication_mirror_manifests` and `runtime.replication_max_manifest_deletes_per_cycle`.
pub record MirrorConfig : Type 0 where
  pub mirror_manifests : Bool
  pub max_deletes : ℕ

pub record PairCounters : Type 0 where
  pub manifests_copied : ℕ
  pub blobs_copied : ℕ
  pub bytes_copied : ℕ
  pub manifests_deleted : ℕ

-- The replica's directory of the source, and its blobs.
pub record Replica : Type 0 where
  pub dir : SourceFiles
  pub blobs : Map (Str × Str) FileOnDisk

abbrev pub Rep : Type 0 → Type 0
Rep A = Run Replica ReplicationError A

-- The file is in place with all its bytes, or as it was.
abbrev pub copied_file : Bool → FileOnDisk → (FileOnDisk → Replica → Replica) → Rep ℕ
copied_file true src place s = (err copy_failed, s)
copied_file false (file (some bytes)) place s = (ok (length bytes), place (file (some bytes)) s)
copied_file false _ place s = (err unreadable, s)

unfoldable pub copy_file_atomic : Bool → FileOnDisk → (FileOnDisk → Replica → Replica) → Rep ℕ
copy_file_atomic refused src place = copied_file refused src place

abbrev pub put_manifest : Str → FileOnDisk → Replica → Replica
put_manifest id f s = record s { dir = record s.dir { manifests = insert id f s.dir.manifests } }

abbrev pub put_blob : Str × Str → FileOnDisk → Replica → Replica
put_blob path f s = record s { blobs = insert path f s.blobs }

abbrev pub put_report : FileOnDisk → Replica → Replica
put_report f s = record s { dir = record s.dir { scan_report = f } }

abbrev pub put_index : FileOnDisk → Replica → Replica
put_index f s = record s { dir = record s.dir { index = f } }

abbrev pub counted_manifest : ℕ → PairCounters → PairCounters
counted_manifest bytes pair = record pair {
  bytes_copied = sat_add pair.bytes_copied bytes;
  manifests_copied = suc pair.manifests_copied;
}

abbrev pub counted_blob : ℕ → PairCounters → PairCounters
counted_blob bytes pair = record pair {
  bytes_copied = sat_add pair.bytes_copied bytes;
  blobs_copied = suc pair.blobs_copied;
}

abbrev pub counted_bytes : ℕ → PairCounters → PairCounters
counted_bytes bytes pair = record pair { bytes_copied = sat_add pair.bytes_copied bytes }

abbrev pub unlisted : Bool → List VersionInfo → Str → Bool
unlisted is_regular versions id = is_regular && not (any (λ v. str_eq v.id id) versions)

abbrev pub is_regular_file : FileOnDisk → Bool
is_regular_file (file content) = true
is_regular_file _ = false

abbrev pub no_counters : PairCounters
no_counters = record {
  manifests_copied = 0;
  blobs_copied = 0;
  bytes_copied = 0;
  manifests_deleted = 0;
}

abbrev pub forget : {A : Type 0} → Result ReplicationError A → Result ReplicationError (Unit {0})
forget (ok a) = ok tt
forget (err e) = err e
