-- ===== src/Versioned/Replication.antt =====
-- crates/core/src/backup/versioned/replication.rs: the files of two stores, and what a replication
-- requires of them.
pub mod Replica
pub mod Pair
pub mod Stores
pub mod Configured
use backup_sync.Prelude.{
  ℕ, Bool, true, false, not, ◌||◌, ◌&&◌, Option, none, some, List, [], ◌∷◌, ◌++◌, ◌==◌,
  if◌then◌else◌, Str, str_eq, length, all, any, Result, ok, err, ◌>>=◌, ◌>>◌, bail_if,
}
use backup_sync.Map.{Map, get, str_key, pair_key}
use backup_sync.Versioned.Model.{VersionInfo, VersionIndex, ManifestEntry, Manifest, is_file}
use backup_sync.Versioned.Validation.{IndexError}
use backup_sync.Versioned.Disk.{Hashing, blob_path, is_lower_hex_byte}

pub data ReplicationError : Type 0 where
  not_available refused_kind missing_artifact unreadable bad_json bad_hash : ReplicationError
  undecodable hash_mismatch manifest_differs copy_failed removal_failed walk_failed :
      ReplicationError
  unsafe_index : IndexError → ReplicationError

-- What stands at a path: nothing, something that is no regular file or cannot be inspected, or a
-- regular file, with its bytes if it can be read.
pub data FileOnDisk : Type 0 where
  absent irregular : FileOnDisk
  file : Option Str → FileOnDisk

pub data RegularFileState : Type 0 where
  missing regular : RegularFileState

-- `sources/<source_id>`: the manifests by version id.
pub record SourceFiles : Type 0 where
  pub manifests : Map Str FileOnDisk
  pub index : FileOnDisk
  pub scan_report : FileOnDisk

pub record StoreFiles : Type 0 where
  pub sources : Map Str SourceFiles
  pub blobs : Map (Str × Str) FileOnDisk

abbrev pub or_absent : Option FileOnDisk → FileOnDisk
or_absent none = absent
or_absent (some f) = f

unfoldable pub regular_file_state : FileOnDisk → Result ReplicationError RegularFileState
regular_file_state absent = ok missing
regular_file_state irregular = err refused_kind
regular_file_state (file content) = ok regular

abbrev pub if_regular : RegularFileState → Result ReplicationError (Unit {0})
if_regular missing = err missing_artifact
if_regular regular = ok tt

unfoldable pub require_regular_file : FileOnDisk → Result ReplicationError (Unit {0})
unfolding regular_file_state
require_regular_file f = do state ← regular_file_state f; if_regular state

-- `fs::File::open` and a read to the end.
abbrev pub read_file : FileOnDisk → Result ReplicationError Str
read_file (file (some bytes)) = ok bytes
read_file _ = err unreadable

unfoldable pub files_have_identical_contents :
    FileOnDisk → FileOnDisk → Result ReplicationError Bool
unfolding require_regular_file
files_have_identical_contents left right = do
  require_regular_file left
  require_regular_file right
  a ← read_file left
  b ← read_file right
  ok (str_eq a b)

unfoldable pub validate_blob_hash : Str → Result ReplicationError (Unit {0})
validate_blob_hash hash =
    bail_if (not (length hash == 64) || not (all is_lower_hex_byte hash)) bad_hash

abbrev pub or_bad : {A : Type 0} → Option A → Result ReplicationError A
or_bad none = err bad_json
or_bad (some a) = ok a

-- The hashes of a manifest's files, in order; an entry without one is passed over.
abbrev pub hash_of : Bool → Option Str → List Str
hash_of true (some hash) = hash ∷ []
hash_of _ _ = []

unfoldable pub file_hashes : Map Str ManifestEntry → List Str
file_hashes [] = []
file_hashes ((k, e) ∷ m) = hash_of (is_file e.kind) e.sha256 ++ file_hashes m

pub record BlobReplicationPlan : Type 0 where
  pub path : Str × Str
  pub expected_sha256 : Str

pub record VersionReplicationPlan : Type 0 where
  pub version_id : Str
  pub blobs : List BlobReplicationPlan

abbrev pub manifest_at : SourceFiles → Str → FileOnDisk
manifest_at s id = or_absent (get id s.manifests)

abbrev pub contents_differ :
    FileOnDisk → FileOnDisk → RegularFileState → Result ReplicationError Bool
contents_differ src dst missing = ok true
contents_differ src dst regular = do same ← files_have_identical_contents src dst; ok (not same)

unfoldable pub manifest_needs_copy : FileOnDisk → FileOnDisk → Result ReplicationError Bool
unfolding files_have_identical_contents regular_file_state
manifest_needs_copy src dst = do state ← regular_file_state dst; contents_differ src dst state

-- What the code takes from `serde_json` and from the blob codec.
module _ (hashing : Hashing) (parse_manifest : Str → Option Manifest) where
  abbrev pub digest_is : {E : Type 0} → Result E Str → Str → Bool
  digest_is (ok actual) expected = str_eq actual expected
  digest_is (err e) expected = false

  unfoldable pub blob_matches_plaintext_hash : FileOnDisk → Str → Bool
  blob_matches_plaintext_hash (file (some bytes)) expected =
      digest_is (hashing.sha256_plaintext_blob bytes) expected
  blob_matches_plaintext_hash _ expected = false

  abbrev pub same_digest : {E : Type 0} → Result E Str → Str → Result ReplicationError (Unit {0})
  same_digest (ok actual) expected = bail_if (not (str_eq actual expected)) hash_mismatch
  same_digest (err e) expected = err undecodable

  unfoldable pub require_plaintext_hash : FileOnDisk → Str → Result ReplicationError (Unit {0})
  require_plaintext_hash f expected = do
    bytes ← read_file f
    same_digest (hashing.sha256_plaintext_blob bytes) expected

  unfoldable pub read_manifest_json : FileOnDisk → Result ReplicationError Manifest
  read_manifest_json f = do raw ← read_file f; or_bad (parse_manifest raw)

  abbrev pub blob_at : Map (Str × Str) FileOnDisk → Str → FileOnDisk
  blob_at blobs hash = or_absent (get (blob_path hashing hash) blobs)

  -- A blob that is there and whose plaintext has the digest.
  unfoldable pub require_blob :
      Map (Str × Str) FileOnDisk → Str → Result ReplicationError (Unit {0})
  unfolding require_regular_file require_plaintext_hash
  require_blob blobs hash = do
    require_regular_file (blob_at blobs hash)
    require_plaintext_hash (blob_at blobs hash) hash

  -- A hash that was seen is planned already.
  abbrev pub plan_unseen :
      Map (Str × Str) FileOnDisk → Str → Bool → Result ReplicationError (List BlobReplicationPlan)
  plan_unseen blobs hash true = ok []
  plan_unseen blobs hash false = do
    require_blob blobs hash
    ok (record { path = blob_path hashing hash; expected_sha256 = hash } ∷ [])

  unfoldable pub plan_blobs :
      Map (Str × Str) FileOnDisk
      → List Str
      → List Str
      → Result ReplicationError (List BlobReplicationPlan)
  unfolding validate_blob_hash require_blob
  plan_blobs blobs seen [] = ok []
  plan_blobs blobs seen (hash ∷ hashes) = do
    validate_blob_hash hash
    plan ← plan_unseen blobs hash (any (str_eq hash) seen)
    rest ← plan_blobs blobs (hash ∷ seen) hashes
    ok (plan ++ rest)

  unfoldable pub build_replication_plans :
      SourceFiles
      → Map (Str × Str) FileOnDisk
      → List VersionInfo
      → Result ReplicationError (List VersionReplicationPlan)
  unfolding require_regular_file read_manifest_json plan_blobs file_hashes
  build_replication_plans src blobs [] = ok []
  build_replication_plans src blobs (version ∷ versions) = do
    require_regular_file (manifest_at src version.id)
    manifest ← read_manifest_json (manifest_at src version.id)
    plan ← plan_blobs blobs [] (file_hashes manifest.entries)
    rest ← build_replication_plans src blobs versions
    ok (record { version_id = version.id; blobs = plan } ∷ rest)

  abbrev pub unmatched : FileOnDisk → Str → RegularFileState → Bool
  unmatched dst expected missing = true
  unmatched dst expected regular = not (blob_matches_plaintext_hash dst expected)

  unfoldable pub blob_needs_copy : FileOnDisk → Str → Result ReplicationError Bool
  unfolding regular_file_state blob_matches_plaintext_hash
  blob_needs_copy dst expected = do
    state ← regular_file_state dst
    ok (unmatched dst expected state)

  unfoldable pub validate_hashes :
      Map (Str × Str) FileOnDisk → List Str → Result ReplicationError (Unit {0})
  unfolding validate_blob_hash require_blob
  validate_hashes blobs [] = ok tt
  validate_hashes blobs (hash ∷ hashes) = do
    validate_blob_hash hash
    require_blob blobs hash
    validate_hashes blobs hashes

  unfoldable pub validate_manifest_artifacts :
      FileOnDisk → Map (Str × Str) FileOnDisk → Result ReplicationError (Unit {0})
  unfolding require_regular_file read_manifest_json validate_hashes file_hashes
  validate_manifest_artifacts f blobs = do
    require_regular_file f
    manifest ← read_manifest_json f
    validate_hashes blobs (file_hashes manifest.entries)

  unfoldable pub validate_replication_plans :
      SourceFiles
      → Map (Str × Str) FileOnDisk
      → SourceFiles
      → Map (Str × Str) FileOnDisk
      → List VersionReplicationPlan
      → Result ReplicationError (Unit {0})
  unfolding files_have_identical_contents validate_manifest_artifacts
  validate_replication_plans src src_blobs dst dst_blobs [] = ok tt
  validate_replication_plans src src_blobs dst dst_blobs (plan ∷ plans) = do
    same ←
        files_have_identical_contents (manifest_at src plan.version_id)
          (manifest_at dst plan.version_id)
    bail_if (not same) manifest_differs
    validate_manifest_artifacts (manifest_at src plan.version_id) src_blobs
    validate_manifest_artifacts (manifest_at dst plan.version_id) dst_blobs
    validate_replication_plans src src_blobs dst dst_blobs plans
