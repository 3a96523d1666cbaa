-- ===== src/Lib.antt =====
-- Verification library of backup-sync: the versioned backup engine of crates/core, its blob codec, and
-- the retention of single files.
--
-- The program watches folders and keeps versions of them at destinations. A store, below
-- `.backup_sync` of a destination, holds blobs named by the SHA-256 of their plaintext and, for each
-- source, manifests (one for each version), an index that lists the versions, and a report of the
-- last scan. A backup scans the source, writes the blobs that are missing, then the manifest, then
-- the index, and only then removes what retention no longer keeps.
--
-- Files, with the code they model (paths from the repository's root):
--   Codec: crates/core/src/encryption/blobs.rs. Codec/Reader has the reads of a file, Codec/Frame and
--     Codec/Payload a chunk, Codec/Encode and Codec/Decode the streams, Codec/Blob the choice
--     between the formats; the others hold proofs.
--   Versioned/Model, Versioned/Validation: model.rs and validation.rs of
--     crates/core/src/backup/versioned.
--   Versioned/Disk: the store on disk as a state, `blob_path`, `is_lower_hex_sha256`.
--   Versioned/Exec: operations on that state that may fail, with a Hoare logic.
--   Versioned/Retry: `retry_with_backoff`; Versioned/Blobs has it over the disk (`attempt_exec`).
--   Versioned/Scan, Scan/Snapshot: `scan_snapshot`, `scan_one_file`, `carry_forward_prev_prefix`,
--     `classify_scan_failure`, `normalize_rel`, `is_hidden`.
--   Versioned/Blobs: `write_blob_once`, `write_blob`, `write_missing_blobs_for_snapshot`.
--   Versioned/Compare: `manifests_equivalent`, `diff_for_simulation`, `format_change_sample`.
--   Versioned/Baseline: `manifest_size`, `shrink_ratio`, `maybe_pin_large_deletion_baseline`.
--   Versioned/Prune: `collect_prunable_versions`, and the `retain` after it.
--   Versioned/Gc: `gc_unreferenced_blobs`.
--   Versioned/Folder, Versioned/Commit: durable writes, version ids and the reading of the index;
--     `load_index`, `latest_manifest`, `write_index`, `write_scan_report`,
--     `finish_scan_without_new_version`, `backup_one_folder`; a function for each stage of the last.
--   Versioned/Release: `remove_kept_safety_version`.
--   Versioned/Cycle: `run_backup_cycle`, `ensure_destination_free_space`.
--   Versioned/Scrub: `select_hashes_for_mode`, `greatest_common_divisor` of scrub.rs.
--   Versioned/Restore: restore.rs: which manifests are accepted, and `swap_staged_tree_into_place`. Its
--     children have the tree of files (Tree), the request and its destination (Request), what is read
--     before anything is written (Plan, Machine), the build of the staged tree (Build), and
--     `restore_version` (Version).
--   Versioned/Replication: replication.rs: the files of a store, plans and their checks. Its children
--     have one source (Replica, Pair), one pair of stores (Stores), and all configured pairs (Configured).
--   Daemon/State, Daemon/Cycle: crates/daemon/src/runtime/cycle.rs and the state of
--     crates/core/src/state/models/mod.rs; `run_cycle` with a function for each stage.
--   Retention: `partition` and `enforce` of crates/core/src/backup/retention/policy.rs.
--   Prelude, Map: shared helpers (Prelude/Run has operations on a state that may
--     fail); `BTreeMap` and directories as sorted association lists.
--   Tests: the theorems at concrete inputs, and a run of a whole cycle.
--
-- Conventions. Text is its bytes. Numbers are natural numbers; additions that the code saturates
-- saturate at the largest u64, and other sums of counts do not wrap. What the machine answers (reads,
-- hashes, time, refusals of the file system) is an argument: a record of functions, by path and
-- attempt. A durable write has three outcomes: nothing, in place but not synced (an error, with the
-- effect), or done; a process that is killed between two writes is one whose next write does nothing.
-- `f64`, SHA-256, zstd and the stream cipher are records of functions. The store takes the blob codec
-- as a record of functions too; the restore fills it with Codec/Digest, the digest that a reader finds to
-- whom every read gives all the bytes. A read of the codec may be short, fail or come
-- too late; what it writes to does not fail. A file that a replication copies is in place with all its
-- bytes, or as it was. A cycle of the daemon is given what the other tasks wrote to the shared state
-- while it ran, and whether the state can be persisted; a commit that cannot be fails the cycle after
-- it has changed the shared state. A manifest file that cannot be
-- read is `none`. A tree of files is a map from places, and `create_dir_all` goes from its root; a tree
-- that is removed is what an argument leaves of it. Directories are listed in the order of their names. Destinations with different paths are
-- taken to be different stores.
--
-- Loops are structural, but for these, on fuel: the prune loop has one round for each version, each
-- of which removes one; the search for a stride has one for each candidate; Euclid's loop has one
-- more than its right argument; the search for an unused version id has one more than the length of
-- the longest id that is taken, since each round makes the id longer. The codec's loops have one more
-- than the bytes ahead, of which each round but the last takes one at least, or, to fill a buffer, one
-- for each byte of it.
--
-- Not modelled: the readable view, leases and snapshot providers (their results are arguments), the
-- removal of a whole source's history, the restore of single files (`restore_files`, `list_version_files`), key files, the
-- daemon's loop, probes and IPC, the command line and the desktop shell.
pub mod Prelude
pub mod Codec
pub mod Map
pub mod Versioned
pub mod Retention
pub mod Daemon
pub mod Tests
