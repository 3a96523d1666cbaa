-- ===== src/Versioned.antt =====
-- The versioned backup engine: crates/core/src/backup/versioned.
pub mod Model
pub mod Validation
pub mod Prune
pub mod Scrub
pub mod Disk
pub mod Exec
pub mod Retry
pub mod Compare
pub mod Scan
pub mod Blobs
pub mod Gc
pub mod Baseline
pub mod Folder
pub mod Commit
pub mod Release
pub mod Cycle
pub mod Restore
pub mod Replication
