-- ===== src/Daemon/Cycle.antt =====
-- `run_cycle` of crates/daemon/src/runtime/cycle.rs: destination health, safe mode, the decision to
-- scan, the engine and the commit of the state.
pub mod Decision
pub mod Merge
pub mod Failure
use backup_sync.Prelude.{
  ℕ, suc, ◌+◌, ◌-◌, max, Bool, true, false, not, ◌&&◌, ◌||◌, Option, none, some, List, [], ◌∷◌, ltb,
  leb, ◌==◌, if◌then◌else◌, Str, codes, starts_with, Result, ok, err,
}
use backup_sync.Prelude.Int.{ℤ, int_lt}
use backup_sync.Codec.Encode.{sat_add}
use backup_sync.Daemon.State.{
  StoredState, merge_cycle_state, EngineResult, apply_backup_cycle_result, ReplicationReport,
  apply_replication_success, apply_replication_failure, DestinationWriteHealth,
  DestinationPauseTransition, apply_destination_health,
}

pub data ScanReason : Type 0 where
  destination_returned dirty_paths first_cycle every_cycle scan_due : ScanReason

pub data ScanDecision : Type 0 where
  run_full_scan : ScanReason → ScanDecision
  skip_clean : ℕ → ScanDecision

-- `is_first_cycle_after_start`, of `start_ts` and `last_run_ts`.
unfoldable pub is_first_cycle_after_start : Option ℤ → Option ℤ → Bool
is_first_cycle_after_start (some start) (some last) = int_lt last start
is_first_cycle_after_start none (some last) = false
is_first_cycle_after_start start none = true

-- `interval_cycles` is `runtime.force_full_scan_interval_cycles`.
unfoldable pub decide_scan : ℕ → StoredState → ℕ → Bool → ScanDecision
unfolding is_first_cycle_after_start
decide_scan dirty_count state interval_cycles force_full_scan =
    let interval = max interval_cycles 1 in
    if force_full_scan
    then run_full_scan destination_returned
    else if ltb 0 dirty_count
    then run_full_scan dirty_paths
    else if is_first_cycle_after_start state.start_ts state.last_run_ts
    then run_full_scan first_cycle
    else if leb interval 1
    then run_full_scan every_cycle
    else if leb (interval - 1) state.cycles_since_full_scan
    then run_full_scan scan_due
    else skip_clean (interval - 1 - state.cycles_since_full_scan)

pub record DaemonConfig : Type 0 where
  pub safe_mode : Bool
  pub force_full_scan_interval_cycles : ℕ

-- What a cycle meets: the time, the watcher's count at the start and after the debounce, the probes,
-- whether their task ends, the shared switch for safe mode when it is read, the outcomes of the engine
-- and of replication (if it is configured), the shared state when the cycle commits, and whether it
-- can be persisted.
pub record CycleInput : Type 0 where
  pub now : ℤ
  pub dirty_at_start : ℕ
  pub drained_count : ℕ
  pub health : List DestinationWriteHealth
  pub probe_joined : Bool
  pub shared_safe_mode : Bool
  pub engine : Result Str EngineResult
  pub replication : Option (Result Str ReplicationReport)
  pub current : StoredState
  pub persisted : Bool

-- The shared state after the cycle, whether the dirty set was drained and the engine run, and whether
-- the cycle failed.
pub record CycleEnd : Type 0 where
  pub shared : StoredState
  pub drained : Bool
  pub engine_ran : Bool
  pub failed : Bool

-- `commit_cycle_state`: the shared state is changed before it is persisted.
abbrev pub committed : StoredState → CycleInput → StoredState → Bool → Bool → CycleEnd
committed baseline input state drained engine_ran = record {
  shared = merge_cycle_state input.current baseline state;
  drained = drained;
  engine_ran = engine_ran;
  failed = not input.persisted;
}

-- A cycle that writes nothing.
abbrev pub idle : ℤ → Option Str → StoredState → StoredState
idle now error state = record state {
  last_run_ts = some now;
  last_files_backed_up = 0;
  cycles_since_full_scan = sat_add state.cycles_since_full_scan 1;
  last_error = error;
}

abbrev pub starts_unavailable : Option Str → Bool
starts_unavailable none = false
starts_unavailable (some e) = starts_with e (codes "Destination unavailable:")

abbrev pub recovered : ℤ → StoredState → StoredState
recovered now state = record state {
  destination_last_recovered_ts = some now;
  destination_unavailable_ids = [];
  last_error = if starts_unavailable state.last_error then none else state.last_error;
}

abbrev pub with_replication : Option (Result Str ReplicationReport) → ℤ → StoredState → StoredState
with_replication none now state = state
with_replication (some (ok summary)) now state = apply_replication_success state summary now
with_replication (some (err error)) now state = apply_replication_failure state error now

-- Stage 3. An engine that fails leaves the state uncommitted.
abbrev pub after_engine :
    StoredState → CycleInput → StoredState → Result Str EngineResult → CycleEnd
after_engine baseline input state (err error) = record {
  shared = input.current;
  drained = true;
  engine_ran = true;
  failed = true;
}
after_engine baseline input state (ok result) =
    committed baseline input
      (with_replication input.replication input.now
        (apply_backup_cycle_result state result input.now))
      true true

abbrev pub after_decision : StoredState → CycleInput → StoredState → ScanDecision → CycleEnd
after_decision baseline input state (skip_clean due) =
    committed baseline input (idle input.now none state) true false
after_decision baseline input state (run_full_scan reason) =
    after_engine baseline input state input.engine

-- Stage 2, once safe mode is known to be off.
abbrev pub scanning : DaemonConfig → StoredState → CycleInput → StoredState → Bool → CycleEnd
scanning cfg baseline input state force =
    let counted : StoredState = record state { last_dirty_count = input.drained_count } in
    after_decision baseline input counted
      (decide_scan input.drained_count counted cfg.force_full_scan_interval_cycles force)

abbrev pub paused_or_scanning :
    DaemonConfig → StoredState → CycleInput → StoredState → Bool → Option Str → CycleEnd
paused_or_scanning cfg baseline input state force none = scanning cfg baseline input state force
paused_or_scanning cfg baseline input state force (some reason) =
    committed baseline input (idle input.now (some reason) state) false false

-- A cycle in safe mode.
abbrev pub safe_or : Bool → StoredState → CycleInput → (StoredState → CycleEnd) → CycleEnd
safe_or true safe input more =
    committed safe input (idle input.now (some (codes "Safe mode: no writes performed")) safe) false
      false
safe_or false safe input more = more safe

-- `apply_safe_mode`, with the rest of the cycle; its own baseline has the same warning.
abbrev pub guarded :
    DaemonConfig → StoredState → CycleInput → StoredState → DestinationPauseTransition → CycleEnd
guarded cfg baseline input state transition =
    let safe : StoredState = record state { safe_mode = input.shared_safe_mode } in
    safe_or (cfg.safe_mode || safe.safe_mode) safe input λ st.
      paused_or_scanning cfg baseline input st transition.destination_recovered
        transition.pause_reason

-- A probe whose task does not end fails the cycle before it does anything.
abbrev pub probed_or_failed : Bool → StoredState → CycleEnd → CycleEnd
probed_or_failed true current end = end
probed_or_failed false current end = record {
  shared = current;
  drained = false;
  engine_ran = false;
  failed = true;
}

unfoldable pub run_cycle : DaemonConfig → StoredState → CycleInput → CycleEnd
unfolding apply_destination_health decide_scan merge_cycle_state apply_backup_cycle_result
    apply_replication_success apply_replication_failure sat_add
run_cycle cfg baseline input =
    let start : StoredState = record baseline { last_dirty_count = input.dirty_at_start } in
    let (state, transition) = apply_destination_health start input.health input.now in
    probed_or_failed input.probe_joined input.current (
      guarded cfg baseline input
        (if transition.destination_recovered then recovered input.now state else state) transition)
