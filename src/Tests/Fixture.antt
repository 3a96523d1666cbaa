-- ===== src/Tests/Fixture.antt =====
-- A small source and machine for the tests: one file, a store that is empty at first, and no
-- failure but where a test says so.
use mathlib.Core.Path.{subst}
use backup_sync.Prelude.{
  ℕ, ◌*◌, ◌/◌, ◌≡◌, refl, true, false, none, some, List, [], ◌∷◌, ltb, ◌==◌, min, max, Str, codes,
  ok, arith,
}
use backup_sync.Prelude.Int.{pos}
use backup_sync.Map.{get, str_key}
use backup_sync.Versioned.Model.{VersionInfo, VersionIndex}
use backup_sync.Versioned.Disk.{Hashing, is_lower_hex_sha256, is_lower_hex_byte}
use backup_sync.Versioned.Compare.{WatchedKind, WatchedPath}
use backup_sync.Versioned.Scan.{SourceView, ScanConfig, found, FileType}
use backup_sync.Versioned.Blobs.{BlobIo}
use backup_sync.Versioned.Gc.{GcIo}
use backup_sync.Versioned.Baseline.{F64}
use backup_sync.Versioned.Folder.{FolderIo, durable, unsynced}
use backup_sync.Versioned.Commit.Store.{StoreOk}
use backup_sync.Versioned.Cycle.{empty_disk, CycleConfig, CycleIo}

abbrev pub digest : Str
digest = codes "aaaaaaaaaaaaaaaaaaaaaaaaaaaaaaaaaaaaaaaaaaaaaaaaaaaaaaaaaaaaaaaa"

abbrev pub hashing : Hashing
hashing = record { sha256_hex = λ s. digest; sha256_plaintext_blob = λ b. ok digest }

-- Hundredths.
abbrev pub hundredths : F64
hundredths = record {
  F = ℕ;
  of_nat = λ n. n * 100;
  div = λ a b. a * 100 / b;
  max = max;
  clamp01 = λ a. min 100 a;
  less = ltb;
  at_most_zero = λ a. a == 0;
  percent = λ a. a;
}

abbrev pub scan : ScanConfig
scan = record { skip_hidden = true; hashing_timeout_seconds = 0; retries = 1 }

abbrev pub view : SourceView
view = record {
  items = found (codes "a.txt") FileType.file ∷ [];
  stat = λ path i. ok (record { len = 3; modified = none });
  sha256_file = λ path i. ok digest;
  elapsed = λ path i. 0;
  is_ignored = λ path. false;
  render = λ e. [];
}

abbrev pub blob_io : BlobIo
blob_io = record {
  encode = λ src i. ok (1 ∷ 2 ∷ 3 ∷ []);
  late = λ src i. false;
  persist_refused = λ src i. false;
  sync_refused = λ src i. i == 0;
  mkdir_refused = λ src. false;
  elapsed = λ src i. 0;
  render = λ e. [];
}

abbrev pub gc_io : GcIo
gc_io = record {
  list_refused = λ id. false;
  entry_refused = λ k. false;
  remove_refused = λ k. false;
}

-- The index's directory is written, but not synced.
abbrev pub folder_io : FolderIo
folder_io = record {
  view = view;
  blob = blob_io;
  gc = gc_io;
  blobs_dir = durable;
  manifests_dir = durable;
  manifest = durable;
  index = unsynced;
  report = durable;
  view_prepared = ok (none, none);
  prune_refused = λ id. false;
  now = pos 7;
  stamp = codes "v1";
}

pub digest-hex : is_lower_hex_sha256 digest ≡ true
unfolding is_lower_hex_sha256 is_lower_hex_byte
digest-hex = refl

-- What the hashing of the source gives.
pub view-hex :
    (path : Str) (i : ℕ) (h : Str) → view.sha256_file path i ≡ ok h → is_lower_hex_sha256 h ≡ true
view-hex path i h p =
    let it : digest ≡ h = ground arith in subst (λ t. is_lower_hex_sha256 t ≡ true) it digest-hex

pub empty_disk-StoreOk : StoreOk hashing empty_disk
unfolding get
empty_disk-StoreOk = record { blobs = λ k b p. absurd p; sources = λ id s p. cc }

abbrev version : Str → ℕ → VersionInfo
version id n = record { id = id; created_at_unix = pos n }

-- Three versions, the first of which is pinned.
abbrev pub versions : List VersionInfo
versions = version (codes "v1") 1 ∷ version (codes "v2") 2 ∷ version (codes "v3") 3 ∷ []

abbrev pub index : VersionIndex
index = record {
  schema_version = 1;
  source_path = codes "/home";
  versions = versions;
  safety_pinned_version_id = some (codes "v1");
  safety_pending_version_id = none;
  safety_pending_first_seen_unix = none;
}

abbrev pub watched : WatchedPath
watched = record {
  path = codes "/home";
  kind = WatchedKind.directory;
  enabled = true;
  destination_id = codes "d";
  max_backups_per_file = none;
}

abbrev pub cycle_config : CycleConfig
cycle_config = record {
  watched = watched ∷ [];
  destinations = record { id = codes "d"; path = codes "/mnt"; max_backups_per_file = some 2 } ∷ [];
  max_backups_per_file = 5;
  min_free_space_bytes = some 10;
  scan = scan;
}

abbrev pub cycle_io : CycleIo
cycle_io = record {
  free_space = λ path. ok 100;
  canonical = λ path. path;
  leases = ok tt;
  codec = ok tt;
  folder = λ w. record folder_io { index = durable };
  readable_view = λ w. ok tt;
  file_name = λ path. path;
}
