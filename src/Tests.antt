-- ===== src/Tests.antt =====
-- The theorems at concrete inputs.
pub mod Fixture
pub mod Store
pub mod Plan
pub mod Cycle
pub mod Restore
pub mod Restoring
pub mod Restored
pub mod Reach
pub mod Collect
pub mod Retention
pub mod Codec
pub mod Replicas
pub mod Daemon
