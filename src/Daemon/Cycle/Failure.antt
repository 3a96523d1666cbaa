-- ===== src/Daemon/Cycle/Failure.antt =====
-- A cycle of crates/daemon/src/runtime/cycle.rs whose engine fails, and the cycle after it.
use mathlib.Core.Path.{subst}
use backup_sync.Prelude.{
  ℕ, ◌+◌, ◌-◌, ◌<◌, max, ◌≡◌, refl, sym, Bool, true, false, ◌||◌, Option, none, some, Str, List, [],
  ◌∷◌, All, filter, not, Result, ok, err, if◌then◌else◌, arith,
}
use backup_sync.Prelude.Int.{ℤ}
use backup_sync.Daemon.State.{
  StoredState, merge_cycle_state, DestinationWriteHealth, EngineResult, apply_destination_health,
}
use backup_sync.Daemon.Cycle.{
  ScanDecision, run_full_scan, skip_clean, decide_scan, DaemonConfig, CycleInput, CycleEnd,
  recovered, after_engine, after_decision, paused_or_scanning, safe_or, probed_or_failed, run_cycle,
}
use backup_sync.Daemon.Cycle.Decision.{HasRun, decide_scan-iff-IsQuiet}

module _ (start : StoredState) (input : CycleInput) (error : Str)
    (fails : input.engine ≡ err error) where
  -- A cycle that gets to its engine leaves the shared state as the other tasks wrote it.
  abbrev Forgets : CycleEnd → Type 0
  Forgets end = end.engine_ran ≡ true → end.shared ≡ input.current

  after_engine-Forgets :
      (state : StoredState) (r : Result Str EngineResult)
      → r ≡ err error
      → Forgets (after_engine start input state r)
  after_engine-Forgets state (err e) q = λ h. refl
  after_engine-Forgets state (ok result) q = absurd (ground (arith, q))

  after_decision-Forgets :
      (state : StoredState) (d : ScanDecision) → Forgets (after_decision start input state d)
  after_decision-Forgets state (skip_clean due) = λ h. absurd (ground (arith, h))
  after_decision-Forgets state (run_full_scan reason) =
      after_engine-Forgets state input.engine fails

  paused_or_scanning-Forgets :
      (cfg : DaemonConfig) (state : StoredState) (force : Bool) (reason : Option Str)
      → Forgets (paused_or_scanning cfg start input state force reason)
  paused_or_scanning-Forgets cfg state force none =
      let counted : StoredState = record state { last_dirty_count = input.drained_count } in
      after_decision-Forgets counted
        (decide_scan input.drained_count counted cfg.force_full_scan_interval_cycles force)
  paused_or_scanning-Forgets cfg state force (some reason) = λ h. absurd (ground (arith, h))

  safe_or-Forgets :
      (on : Bool) (safe : StoredState) (more : StoredState → CycleEnd)
      → Forgets (more safe)
      → Forgets (safe_or on safe input more)
  safe_or-Forgets true safe more k = λ h. absurd (ground (arith, h))
  safe_or-Forgets false safe more k = k

  probed_or_failed-Forgets :
      (joined : Bool) (end : CycleEnd)
      → Forgets end
      → Forgets (probed_or_failed joined input.current end)
  probed_or_failed-Forgets true end k = k
  probed_or_failed-Forgets false end k = λ h. absurd (ground (arith, h))

  run_cycle-Forgets : (cfg : DaemonConfig) → Forgets (run_cycle cfg start input)
  unfolding run_cycle apply_destination_health
  run_cycle-Forgets cfg =
      let begun : StoredState = record start { last_dirty_count = input.dirty_at_start } in
      let probed = apply_destination_health begun input.health input.now in
      let state : StoredState =
        if probed.1.destination_recovered then recovered input.now probed.0 else probed.0 in
      let safe : StoredState = record state { safe_mode = input.shared_safe_mode } in
      probed_or_failed-Forgets input.probe_joined _ (
        safe_or-Forgets (cfg.safe_mode || input.shared_safe_mode) safe
          (λ st.
            paused_or_scanning cfg start input st probed.1.destination_recovered
              probed.1.pause_reason)
          (paused_or_scanning-Forgets cfg safe probed.1.destination_recovered
            probed.1.pause_reason))

-- A cycle in which nothing is known to have changed: its probes end and find every destination, none
-- of which was away, safe mode is off, no path is dirty, a cycle has run, and a forced scan is not due.
pub record IsCalm (cfg : DaemonConfig) (state : StoredState) (input : CycleInput) : Type 0 where
  pub joined : input.probe_joined ≡ true
  pub present : All (λ d. d.available ≡ true) input.health
  pub not_paused : state.destination_paused ≡ false
  pub writes : (cfg.safe_mode ≡ false) × (input.shared_safe_mode ≡ false)
  pub clean : input.drained_count ≡ 0
  pub has_run : HasRun state.start_ts state.last_run_ts
  pub not_due : state.cycles_since_full_scan + 1 < max cfg.force_full_scan_interval_cycles 1

none_away :
    (health : List DestinationWriteHealth)
    → All (λ d. d.available ≡ true) health
    → filter (λ d. not d.available) health ≡ []
none_away [] h = refl
none_away (d ∷ ds) h = rw h.0 (none_away ds h.1)

-- A cycle that did not run the engine and reports no error.
abbrev IsSilent : CycleEnd → Type 0
IsSilent end = (end.engine_ran ≡ false) × (end.shared.last_error ≡ none)

module _ (cfg : DaemonConfig) (start : StoredState) (input : CycleInput)
    (clean : input.drained_count ≡ 0) where
  -- The state gives no reason for a scan.
  abbrev NotDue : StoredState → Type 0
  NotDue state =
      HasRun state.start_ts state.last_run_ts
      × (state.cycles_since_full_scan + 1 < max cfg.force_full_scan_interval_cycles 1)

  skipped_silently :
      (state : StoredState) (d : ScanDecision) (due : ℕ)
      → d ≡ skip_clean due
      → IsSilent (after_decision start input state d)
  unfolding merge_cycle_state
  skipped_silently state (skip_clean n) due e = (refl, refl)
  skipped_silently state (run_full_scan reason) due e = cc

  scanning_silently :
      (state : StoredState)
      → NotDue state
      → IsSilent (paused_or_scanning cfg start input state false none)
  scanning_silently state (has_run, not_due) =
      let counted : StoredState = record state { last_dirty_count = input.drained_count } in
      let interval = cfg.force_full_scan_interval_cycles in
      let due = max interval 1 - 1 - state.cycles_since_full_scan in
      skipped_silently counted _ due (
        (decide_scan-iff-IsQuiet input.drained_count counted interval false due).1 (record {
          not_forced = refl;
          clean = clean;
          started = has_run;
          left = omega (arith, not_due);
          some_left = omega (arith, not_due);
        }))

  cycle_silently :
      (joined on force : Bool) (reason : Option Str) (safe : StoredState)
      → joined ≡ true
      → on ≡ false
      → force ≡ false
      → reason ≡ none
      → NotDue safe
      → IsSilent (
          probed_or_failed joined input.current
            (safe_or on safe input (λ st. paused_or_scanning cfg start input st force reason)))
  cycle_silently joined on force reason safe a b c d q = rw (a, b, c, d) (scanning_silently safe q)

recovered-NotDue :
    (cfg : DaemonConfig) (start : StoredState) (input : CycleInput)
    (clean : input.drained_count ≡ 0) (back : Bool) (now : ℤ) (state : StoredState)
    → NotDue cfg start input clean state
    → NotDue cfg start input clean (if back then recovered now state else state)
recovered-NotDue cfg start input clean true now state q = q
recovered-NotDue cfg start input clean false now state q = q

calm_cycle :
    (cfg : DaemonConfig) (state : StoredState) (input : CycleInput)
    → IsCalm cfg state input
    → IsSilent (run_cycle cfg state input)
unfolding run_cycle apply_destination_health
calm_cycle cfg state input c =
    let begun : StoredState = record state { last_dirty_count = input.dirty_at_start } in
    let probed = apply_destination_health begun input.health input.now in
    let present = none_away input.health c.present in
    let no_reason : probed.1.pause_reason ≡ none = rw present refl in
    let not_back : probed.1.destination_recovered ≡ false = rw c.not_paused refl in
    let safe_off : (cfg.safe_mode || input.shared_safe_mode) ≡ false = ground (arith, c.writes) in
    cycle_silently cfg state input c.clean input.probe_joined
      (cfg.safe_mode || input.shared_safe_mode) probed.1.destination_recovered probed.1.pause_reason
      _ c.joined safe_off not_back no_reason
      (recovered-NotDue cfg state input c.clean probed.1.destination_recovered input.now probed.0
        (c.has_run, c.not_due))

-- After a cycle whose engine ran and failed, the shared state is as the other tasks left it: the error
-- is not recorded. If the next cycle starts from there and is calm (no path is dirty, the last run is
-- not before the start, no forced scan is due, safe mode is off and every destination is there, none of
-- which was away), it does not run the engine either and reports no error.
pub run_cycle-forgets_failure :
    (cfg : DaemonConfig) (start : StoredState) (failing next : CycleInput) (error : Str)
    → failing.engine ≡ err error
    → (run_cycle cfg start failing).engine_ran ≡ true
    → IsCalm cfg failing.current next
    → ((run_cycle cfg start failing).shared ≡ failing.current)
      × ((run_cycle cfg (run_cycle cfg start failing).shared next).engine_ran ≡ false)
      × ((run_cycle cfg (run_cycle cfg start failing).shared next).shared.last_error ≡ none)
run_cycle-forgets_failure cfg start failing next error fails ran calm =
    let same = run_cycle-Forgets start failing error fails cfg ran in
    let silent =
      subst (λ s. IsSilent (run_cycle cfg s next)) (sym same)
        (calm_cycle cfg failing.current next calm) in
    (same, silent.0, silent.1)
