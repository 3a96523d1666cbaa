-- ===== src/Daemon.antt =====
-- crates/daemon/src/runtime: the cycles of the daemon, over the state that it shares and persists.
pub mod State
pub mod Cycle
