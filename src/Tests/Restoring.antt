-- ===== src/Tests/Restoring.antt =====
-- The inputs of the tests of a restore: a store with one version, and a target with another file.
use backup_sync.Prelude.{true, false, none, some, [], ◌∷◌, Str, codes, ok}
use backup_sync.Prelude.Int.{pos}
use backup_sync.Map.{Map, str_key, pair_key}
use backup_sync.Codec.Blob.{BlobCodec}
use backup_sync.Versioned.Model.{
  VersionInfo, VersionIndex, ManifestEntry, ManifestEntryKind, Manifest,
}
use backup_sync.Versioned.Disk.{Disk, SourceStore, index_file}
use backup_sync.Versioned.Cycle.{Stores}
use backup_sync.Versioned.Restore.{Places}
use backup_sync.Versioned.Restore.Request.{in_place, RestoreRequest, RestoreConfig}
use backup_sync.Versioned.Restore.Tree.{place_key, directory, regular, FileTree, TreeIo}
use backup_sync.Versioned.Restore.Build.{BlobReads}
use backup_sync.Versioned.Restore.Machine.{RestoreIo}
use backup_sync.Tests.Fixture.{digest, watched}
use backup_sync.Tests.Codec.{keep, tagged}

-- Blobs are stored plain.
abbrev pub plainly : BlobCodec
plainly = record {
  cipher = none;
  write_compression_enabled = false;
  write_compression_chunk_bytes = 1;
  write_compression_zstd_level = pos 3;
}

abbrev pub reads : BlobReads
reads = record {
  zstd = keep;
  aead = tagged;
  sha256_hex = λ s. digest;
  open_blob = λ path blob. ok (record { bytes = blob; grants = [] });
}

abbrev pub dir_d : ManifestEntry
dir_d = record {
  kind = ManifestEntryKind.dir;
  rel_path = codes "d";
  len = 0;
  mtime_unix = pos 0;
  mtime_nanos = 0;
  sha256 = none;
}

abbrev pub file_a : ManifestEntry
file_a = record {
  kind = ManifestEntryKind.file;
  rel_path = codes "d/a";
  len = 3;
  mtime_unix = pos 8;
  mtime_nanos = 0;
  sha256 = some digest;
}

abbrev pub entries : Map Str ManifestEntry
entries = (codes "d", dir_d) ∷ (codes "d/a", file_a) ∷ []

abbrev pub manifest : Manifest
manifest = record {
  schema_version = 1;
  source_path = codes "/home";
  created_at_unix = pos 9;
  source_snapshot = none;
  source_snapshot_error = none;
  read_failures = [];
  entries = entries;
}

abbrev pub v1 : VersionInfo
v1 = record { id = codes "v1"; created_at_unix = pos 9 }

abbrev pub index : VersionIndex
index = record {
  schema_version = 1;
  source_path = codes "/home";
  versions = v1 ∷ [];
  safety_pinned_version_id = none;
  safety_pending_version_id = none;
  safety_pending_first_seen_unix = none;
}

abbrev pub source : SourceStore
source = record {
  manifests = (codes "v1", some manifest) ∷ [];
  index = index_file index;
  scan_report = none;
}

abbrev pub store : Disk
store = record {
  sources_exist = true;
  sources = (digest, source) ∷ [];
  blobs = ((codes "aa", digest), 1 ∷ 2 ∷ 3 ∷ []) ∷ [];
}

abbrev pub stores : Stores
stores = (codes "/mnt", store) ∷ []

abbrev pub config : RestoreConfig
config = record {
  watched = watched ∷ [];
  destinations = record { id = codes "d"; path = codes "/mnt"; max_backups_per_file = none } ∷ [];
  free_space_safety_buffer_bytes = 5;
  min_free_space_bytes = some 6;
}

abbrev pub request : RestoreRequest
request = record {
  source_path = codes "/home";
  version_id = codes "v1";
  mode = in_place;
  target_dir = none;
}

abbrev pub willing : TreeIo
willing = record {
  mkdir_refused = λ p. false;
  temp_refused = λ p. false;
  persist_refused = λ p. false;
  mtime_refused = λ p. false;
}

abbrev pub io : RestoreIo
io = record {
  lease = ok tt;
  parent_refused = false;
  free_space = ok 9;
  codec = ok plainly;
  walk_refused = false;
  tree = willing;
  swap = record { aside_refused = false; move_refused = false; rollback_refused = true };
  stage_left = λ t. none;
  aside_left = λ t. none;
}

-- A target with a file that the version does not have.
abbrev pub places : Places FileTree
places = record {
  stage = none;
  target = some (([], directory) ∷ (codes "b" ∷ [], regular (4 ∷ []) none) ∷ []);
  aside = none;
}
