-- ===== src/Tests/Cycle.antt =====
-- A run of a whole cycle, and the theorem on its report.
use backup_sync.Prelude.{◌≡◌, refl, [], length, filter, ok, ◌≤◌}
use backup_sync.Map.{str_key, get, contains_key, insert}
use backup_sync.Versioned.Compare.{WatchedPath}
use backup_sync.Versioned.Cycle.{
  BackupCycleResult, find_destination, enabled_destinations, ensure_destination_free_space,
  check_free_space, backup_watched, backup_folders, prepare_cycle, run_backup_cycle,
}
use backup_sync.Versioned.Commit.{
  load_index, latest_manifest, write_index, write_scan_report, write_manifest, make_directories,
  candidate, clean_up, commit_version, materialize, backup_one_folder,
}
use backup_sync.Versioned.Folder.{
  fresh_from, fresh_version_id, insert_version, sort_versions, latest_in,
}
use backup_sync.Versioned.Scan.Snapshot.{
  scan_one_file, scan_file, scan_item, scan_items, scan_entries,
}
use backup_sync.Versioned.Scan.{normalize_rel, is_hidden, prev_entry, reusable}
use backup_sync.Versioned.Blobs.{
  attempt_exec, validate_expected_blob_hash, write_blob_once, write_blob, write_missing_blobs,
  write_missing_blobs_for_snapshot,
}
use backup_sync.Versioned.Retry.{attempt, retry_with_backoff}
use backup_sync.Versioned.Prune.{
  contains, protected_ids, prune_loop, collect_prunable_versions, retain_unpruned,
}
use backup_sync.Versioned.Disk.{is_lower_hex_byte, is_lower_hex_sha256, blob_path}
use backup_sync.Versioned.Cycle.Accounts.{run_backup_cycle-accounts}
use backup_sync.Tests.Fixture.{hashing, hundredths, cycle_config, cycle_io}

-- One folder, one version, one blob.
abbrev one_version : BackupCycleResult
one_version = record {
  folders_scanned = 1;
  versions_created = 1;
  blobs_written = 1;
  bytes_written = 3;
  safety_warnings = [];
}

cycle_runs : (run_backup_cycle hashing hundredths cycle_config 50 cycle_io []).0 ≡ ok one_version
unfolding find_destination enabled_destinations ensure_destination_free_space check_free_space
    backup_watched backup_folders prepare_cycle run_backup_cycle fresh_from fresh_version_id
    insert_version sort_versions latest_in load_index latest_manifest write_index write_scan_report
    write_manifest make_directories candidate clean_up commit_version materialize backup_one_folder
    scan_one_file scan_file scan_item scan_items scan_entries normalize_rel is_hidden prev_entry
    reusable attempt_exec validate_expected_blob_hash write_blob_once write_blob write_missing_blobs
    write_missing_blobs_for_snapshot attempt retry_with_backoff contains protected_ids prune_loop
    collect_prunable_versions retain_unpruned is_lower_hex_byte is_lower_hex_sha256 blob_path get
    contains_key insert
cycle_runs = refl

run_backup_cycle-accounts_example :
    (one_version.folders_scanned
      ≡ length (filter (λ (w : WatchedPath). w.enabled) cycle_config.watched))
    × (one_version.versions_created ≤ one_version.folders_scanned)
run_backup_cycle-accounts_example =
    run_backup_cycle-accounts hashing hundredths cycle_config 50 cycle_io [] one_version cycle_runs
