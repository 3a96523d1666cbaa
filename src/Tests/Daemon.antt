-- ===== src/Tests/Daemon.antt =====
-- Cycles of the daemon at concrete inputs.
use backup_sync.Prelude.{
  ◌-◌, ◌≤◌, ◌≡◌, ◌↔◌, max, refl, true, false, none, some, [], ◌∷◌, codes, err, arith,
}
use backup_sync.Prelude.Int.{pos}
use backup_sync.Daemon.State.{StoredState}
use backup_sync.Daemon.Cycle.{
  DaemonConfig, CycleInput, skip_clean, decide_scan, is_first_cycle_after_start, run_cycle,
}
use backup_sync.Daemon.Cycle.Merge.{KeepsOthers, run_cycle-KeepsOthers}
use backup_sync.Daemon.Cycle.Failure.{IsCalm, run_cycle-forgets_failure}
use backup_sync.Daemon.Cycle.Decision.{
  IsQuiet, decide_scan-iff-IsQuiet, begin, skipped, Skips-bounded,
}

abbrev cfg : DaemonConfig
cfg = record { safe_mode = false; force_full_scan_interval_cycles = 3 }

abbrev before : StoredState
before = record {
  files = [];
  last_run_ts = some (pos 20);
  last_error = none;
  last_files_backed_up = 0;
  prune_counter = 0;
  last_dirty_count = 0;
  cycles_since_full_scan = 1;
  start_ts = some (pos 10);
  version = none;
  last_verify_ts = none;
  last_verify_status = none;
  last_verify_issues = none;
  last_scrub_full_ts = none;
  recent_activity = [];
  safe_mode = false;
  destination_paused = false;
  destination_pause_reason = none;
  destination_unavailable_ids = [];
  destination_last_unavailable_ts = none;
  destination_last_recovered_ts = none;
  replication_last_run_ts = none;
  replication_last_status = none;
  replication_last_error = none;
  replication_last_bytes_copied = 0;
  replication_last_blobs_copied = 0;
  replication_last_manifests_copied = 0;
  replication_last_manifests_deleted = 0;
  replication_last_pairs_ok = 0;
  replication_last_pairs_failed = 0;
  replication_last_targets_failed = [];
  last_safety_warning = none;
}

-- Nothing is dirty, and every destination is there.
abbrev calm : CycleInput
calm = record {
  now = pos 30;
  dirty_at_start = 0;
  drained_count = 0;
  health = record { id = codes "d"; available = true; message = codes "ok" } ∷ [];
  shared_safe_mode = false;
  engine = err (codes "full");
  replication = none;
  current = before;
  probe_joined = true;
  persisted = true;
}

-- While a clean cycle runs, another task sets a warning.
abbrev warned : CycleInput
warned = record calm {
  current = record before {
    last_safety_warning = some (record {
      ts = pos 25;
      message = codes "shrunk";
      watched_path = none;
      kept_version_id = some (codes "v1");
    });
  };
}

run_cycle-KeepsOthers_example :
    KeepsOthers before warned.current (run_cycle cfg before warned).shared
run_cycle-KeepsOthers_example = run_cycle-KeepsOthers cfg before warned

decide_scan-iff-IsQuiet_example :
    (decide_scan 0 before 3 false ≡ skip_clean 1) ↔ IsQuiet 0 before 3 false 1
decide_scan-iff-IsQuiet_example = decide_scan-iff-IsQuiet 0 before 3 false 1

decides : decide_scan 0 before 3 false ≡ skip_clean 1
unfolding decide_scan is_first_cycle_after_start
decides = refl

drains : (run_cycle cfg before calm).drained ≡ true
unfolding run_cycle is_first_cycle_after_start
drains = refl

idles : (run_cycle cfg before calm).engine_ran ≡ false
unfolding run_cycle is_first_cycle_after_start
idles = refl

Skips-bounded_example : 1 ≤ max 3 1 - 1 - 1
Skips-bounded_example =
    Skips-bounded cfg before 1 (run_cycle cfg before calm).shared (omega arith)
      (skipped begin calm drains idles)

-- A path is dirty, and the engine fails.
abbrev failing : CycleInput
failing = record calm { dirty_at_start = 1; drained_count = 1 }

runs_engine : (run_cycle cfg before failing).engine_ran ≡ true
unfolding run_cycle is_first_cycle_after_start
runs_engine = refl

calm_after : IsCalm cfg before calm
calm_after = record {
  joined = refl;
  present = (refl, tt);
  not_paused = refl;
  writes = (refl, refl);
  clean = refl;
  has_run = omega arith;
  not_due = omega arith;
}

run_cycle-forgets_failure_example :
    let left = (run_cycle cfg before failing).shared in
    (left ≡ before)
    × ((run_cycle cfg left calm).engine_ran ≡ false)
    × ((run_cycle cfg left calm).shared.last_error ≡ none)
run_cycle-forgets_failure_example =
    run_cycle-forgets_failure cfg before failing calm (codes "full") refl runs_engine calm_after
