-- ===== src/Tests/Replicas.antt =====
-- A replication at concrete inputs: one version with one file, to a replica that has another version.
use backup_sync.Prelude.{
  ℕ, ◌≡◌, refl, true, false, none, some, List, [], ◌∷◌, Str, codes, Result, ok, err,
}
use backup_sync.Prelude.Int.{pos}
use backup_sync.Prelude.Run.{Outcome}
use backup_sync.Versioned.Model.{VersionIndex, Manifest, ManifestEntry, ManifestEntryKind}
use backup_sync.Versioned.Replication.{
  FileOnDisk, absent, file, SourceFiles, ReplicationError, not_available,
}
use backup_sync.Versioned.Replication.Pair.{
  read_index_json, replicate_source, mirror_manifest_deletions,
}
use backup_sync.Versioned.Replication.Replica.{
  ReplicaIo, MirrorConfig, Replica, no_counters, PairCounters,
}
use backup_sync.Versioned.Replication.Pair.Safe.{IsPublished, IsSafe, replicate_source-IsPublished}
use backup_sync.Versioned.Replication.Pair.Mirror.{
  stale, Removes, mirror_manifest_deletions-Removes,
}
use backup_sync.Versioned.Replication.Configured.{
  ReplicaTarget, ReplicationSummary, replicate_configured_stores,
}
use backup_sync.Versioned.Replication.Configured.Accounts.{
  AddsUp, target_count, replicate_configured_stores-AddsUp,
}
use backup_sync.Map.{Map, get, insert, remove}
use backup_sync.Versioned.Disk.{blob_path, is_lower_hex_sha256, is_lower_hex_byte}
use backup_sync.Versioned.Validation.{validate_version_index, validate_version_id}
use backup_sync.Tests.Fixture.{digest, hashing}

abbrev entry : ManifestEntry
entry = record {
  kind = ManifestEntryKind.file;
  rel_path = codes "a.txt";
  len = 3;
  mtime_unix = pos 0;
  mtime_nanos = 0;
  sha256 = some digest;
}

abbrev manifest : Manifest
manifest = record {
  schema_version = 1;
  source_path = codes "src";
  created_at_unix = pos 0;
  source_snapshot = none;
  source_snapshot_error = none;
  read_failures = [];
  entries = (codes "a.txt", entry) ∷ [];
}

abbrev one_version : VersionIndex
one_version = record {
  schema_version = 1;
  source_path = codes "src";
  versions = record { id = codes "v2"; created_at_unix = pos 0 } ∷ [];
  safety_pinned_version_id = none;
  safety_pending_version_id = none;
  safety_pending_first_seen_unix = none;
}

abbrev io : ReplicaIo
io = record {
  hashing = hashing;
  parse_manifest = λ raw. some manifest;
  parse_index = λ raw. some one_version;
  manifest_refused = λ id. false;
  blob_refused = λ hash. false;
  report_refused = true;
  index_refused = false;
  removal_refused = λ id. false;
}

abbrev source : SourceFiles
source = record {
  manifests = (codes "v2", file (some (7 ∷ []))) ∷ [];
  index = file (some (8 ∷ []));
  scan_report = absent;
}

abbrev replica : Replica
replica = record {
  dir = record {
    manifests = (codes "v1", file (some (6 ∷ []))) ∷ [];
    index = file (some (5 ∷ []));
    scan_report = absent;
  };
  blobs = [];
}

abbrev blobs : Map (Str × Str) FileOnDisk
blobs = (blob_path hashing digest, file (some (1 ∷ 2 ∷ []))) ∷ []

abbrev mirror : MirrorConfig
mirror = record { mirror_manifests = true; max_deletes = 2 }

read : read_index_json io source blobs source.index ≡ ok one_version
unfolding validate_version_index validate_version_id
read = refl

-- The older manifest of the replica is removed; the version is copied with its blob.
run : replicate_source io source blobs mirror no_counters replica ≡ (
  ok (record { manifests_copied = 1; blobs_copied = 1; bytes_copied = 4; manifests_deleted = 1 }),
  record { dir = source; blobs = blobs },
)
unfolding replicate_source validate_version_index validate_version_id get is_lower_hex_byte
    blob_path is_lower_hex_sha256 backup_sync.Versioned.Replication.manifest_needs_copy
    backup_sync.Versioned.Replication.blob_needs_copy insert backup_sync.Codec.Encode.sat_add remove
run = refl

replicate_source-IsPublished_example :
    Outcome
      (λ counters. IsPublished io source blobs one_version)
      (IsSafe io source blobs replica.dir.index one_version)
      (replicate_source io source blobs mirror no_counters replica).0
      (replicate_source io source blobs mirror no_counters replica).1
replicate_source-IsPublished_example =
    replicate_source-IsPublished io source blobs mirror no_counters one_version replica read

mirror_manifest_deletions-Removes_example :
    Removes
      (stale one_version.versions replica.dir.manifests)
      2
      0
      replica
      (mirror_manifest_deletions io source blobs 2 one_version replica)
mirror_manifest_deletions-Removes_example =
    mirror_manifest_deletions-Removes io source blobs 2 one_version replica

abbrev targets : List ReplicaTarget
targets =
    record { id = codes "a"; replicate_to = codes "b" ∷ codes "c" ∷ [] }
    ∷ record { id = codes "b"; replicate_to = [] }
    ∷ []

-- The one pair that can be attempted fails.
abbrev unavailable : ReplicaTarget → ReplicaTarget → ℕ → Result ReplicationError PairCounters × ℕ
unavailable src dst s = (err not_available, s)

replicate_configured_stores-AddsUp_example :
    (summary : ReplicationSummary) × ((replicate_configured_stores unavailable true
        (ok tt)
        targets
        0).0
      ≡ ok summary)
    × AddsUp summary (target_count targets)
replicate_configured_stores-AddsUp_example =
    replicate_configured_stores-AddsUp unavailable targets 0
