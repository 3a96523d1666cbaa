-- ===== src/Tests/Reach.antt =====
-- A version that is listed and cannot be restored, at a concrete input.
use backup_sync.Prelude.{List, err, ◌≡◌, refl, inl, inr, none, [], ◌∷◌, Str, codes, ok}
use backup_sync.Map.{get, str_key, pair_key}
use backup_sync.Codec.Digest.{codec_hashing}
use backup_sync.Versioned.Model.{VersionInfo}
use backup_sync.Versioned.Validation.{validate_version_id, is_ascii_alphanumeric, is_id_byte}
use backup_sync.Versioned.Cycle.{Stores}
use backup_sync.Versioned.Restore.{split_path, parse_parts}
use backup_sync.Versioned.Restore.Request.{RestoreConfig, destination_root_for_source}
use backup_sync.Versioned.Restore.Tree.{place_key}
use backup_sync.Versioned.Restore.Version.{restore_version}
use backup_sync.Versioned.Restore.Version.Decodes.{digests_of}
use backup_sync.Versioned.Compare.{WatchedPath}
use backup_sync.Versioned.Cycle.{Destination, find_destination}
use backup_sync.Versioned.Validation.{validate_version_index}
use backup_sync.Versioned.Restore.{RestoreError}
use backup_sync.Versioned.Restore.Plan.{list_versions}
use backup_sync.Versioned.Restore.Version.Reach.{Lists, Shows, restore_version-out_of_reach}
use backup_sync.Tests.Fixture.{watched}
use backup_sync.Tests.Restoring.{plainly, reads, v1, index, store, config, request, io, places}

-- The source is watched for a second destination, and only the store there has the version.
abbrev second : WatchedPath
second = record watched { destination_id = codes "e" }

abbrev alternative : Destination
alternative = record { id = codes "e"; path = codes "/alt"; max_backups_per_file = none }

abbrev two : RestoreConfig
two = record config {
  watched = watched ∷ second ∷ [];
  destinations =
      record { id = codes "d"; path = codes "/mnt"; max_backups_per_file = none }
      ∷ alternative
      ∷ [];
}

abbrev apart_stores : Stores
apart_stores = (codes "/alt", store) ∷ []

abbrev both_lists : List (Str × List VersionInfo)
both_lists = (codes "/home", []) ∷ (codes "/home", v1 ∷ []) ∷ []

lists_are : list_versions two (digests_of reads plainly) apart_stores ≡ ok both_lists
unfolding list_versions codec_hashing get find_destination validate_version_index is_id_byte
    is_ascii_alphanumeric validate_version_id
lists_are = refl

second-Lists : Lists two (digests_of reads plainly) apart_stores second v1
unfolding find_destination get codec_hashing
second-Lists = record {
  enabled = refl;
  kind = refl;
  destination = alternative;
  found = refl;
  index = index;
  read = refl;
  has = inl refl;
}

first_is : destination_root_for_source two request.source_path ≡ ok (codes "/mnt")
unfolding destination_root_for_source split_path parse_parts
first_is = refl

restore_version-out_of_reach_example :
    Shows two (digests_of reads plainly) apart_stores second v1 both_lists
    × ((e : RestoreError) × (restore_version two
            (digests_of reads plainly)
            reads
            apart_stores
            io
            request
            places
          ≡ (err e, places)))
unfolding get
restore_version-out_of_reach_example =
    restore_version-out_of_reach two (digests_of reads plainly) apart_stores reads io request places
      second v1 (codes "/mnt") both_lists lists_are (inr (inl refl)) second-Lists refl refl first_is
      refl
