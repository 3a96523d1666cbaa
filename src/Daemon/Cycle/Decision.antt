-- ===== src/Daemon/Cycle/Decision.antt =====
-- When a cycle of crates/daemon/src/runtime/cycle.rs goes without a scan, and for how many cycles.
use backup_sync.Prelude.{
  ℕ, suc, ◌+◌, ◌-◌, ◌≤◌, ◌<◌, max, ◌≡◌, refl, ap, ◌∙◌, ◌↔◌, Bool, true, false, ◌||◌, Option, none,
  some, Str, Result, ok, err, if◌then◌else◌, arith,
}
use backup_sync.Prelude.Int.{ℤ, pos_part, neg_part}
use backup_sync.Codec.Encode.{sat_add}
use backup_sync.Daemon.State.{
  StoredState, merge_cycle_state, EngineResult, apply_destination_health,
}
use backup_sync.Daemon.Cycle.{
  ScanDecision, run_full_scan, skip_clean, is_first_cycle_after_start, decide_scan, DaemonConfig,
  CycleInput, CycleEnd, recovered, after_engine, after_decision, paused_or_scanning, safe_or,
  probed_or_failed, run_cycle,
}

-- A cycle has run, and none has started the daemon since: the last run is not before the start.
abbrev pub HasRun : Option ℤ → Option ℤ → Type 0
HasRun start none = ⊥
HasRun none (some last) = Unit {0}
HasRun (some start) (some last) = pos_part start + neg_part last ≤ pos_part last + neg_part start

HasRun-iff :
    (start last : Option ℤ) → (is_first_cycle_after_start start last ≡ false) ↔ HasRun start last
unfolding is_first_cycle_after_start
HasRun-iff none none = ground arith
HasRun-iff (some s) none = ground arith
HasRun-iff none (some l) = (λ h. tt, λ h. refl)
HasRun-iff (some s) (some l) = ground arith

-- Nothing is known to have changed, and the last full scan is recent enough.
pub record IsQuiet (dirty : ℕ) (state : StoredState) (interval : ℕ) (force : Bool) (due : ℕ)
    : Type 0 where
  pub not_forced : force ≡ false
  pub clean : dirty ≡ 0
  pub started : HasRun state.start_ts state.last_run_ts
  pub left : state.cycles_since_full_scan + due + 1 ≡ max interval 1
  pub some_left : 1 ≤ due

decide_scan-IsQuiet :
    (dirty : ℕ) (state : StoredState) (interval : ℕ) (force : Bool) (due : ℕ)
    → decide_scan dirty state interval force ≡ skip_clean due
    → IsQuiet dirty state interval force due
unfolding decide_scan
decide_scan-IsQuiet dirty state interval force due e = record {
  not_forced = ground arith;
  clean = ground arith;
  started = (HasRun-iff state.start_ts state.last_run_ts).0 (ground arith);
  left = ground arith;
  some_left = ground arith;
}

IsQuiet-decide_scan :
    (dirty : ℕ) (state : StoredState) (interval : ℕ) (force : Bool) (due : ℕ)
    → IsQuiet dirty state interval force due
    → decide_scan dirty state interval force ≡ skip_clean due
unfolding decide_scan
IsQuiet-decide_scan dirty state interval force due q =
    let a = q.not_forced in
    let b = q.clean in
    let c = (HasRun-iff state.start_ts state.last_run_ts).1 q.started in
    let d = q.left in let e = q.some_left in ground arith

-- A scan is skipped exactly if no destination just came back, no path is dirty, a cycle has run and,
-- where the start of the daemon is known, not before it, and, with `due` of at least one, there are
-- `due` and one more cycles to go until as many are over since the last full scan as the interval has
-- (at least one).
pub decide_scan-iff-IsQuiet :
    (dirty : ℕ) (state : StoredState) (interval : ℕ) (force : Bool) (due : ℕ)
    → (decide_scan dirty state interval force ≡ skip_clean due)
      ↔ IsQuiet dirty state interval force due
decide_scan-iff-IsQuiet dirty state interval force due = (
  decide_scan-IsQuiet dirty state interval force due,
  IsQuiet-decide_scan dirty state interval force due,
)

-- A cycle that drained the dirty set and did not run the engine counted itself, below the interval.
abbrev IsSkip : ℕ → ℕ → CycleEnd → Type 0
IsSkip count interval end =
    end.drained ≡ true
    → end.engine_ran ≡ false
    → (end.shared.cycles_since_full_scan ≡ sat_add count 1) × (count + 1 < max interval 1)

module _ (start : StoredState) (input : CycleInput) where
  after_engine-IsSkip :
      (state : StoredState) (count interval : ℕ) (r : Result Str EngineResult)
      → IsSkip count interval (after_engine start input state r)
  after_engine-IsSkip state count interval (err e) d n = absurd (ground arith)
  after_engine-IsSkip state count interval (ok result) d n = absurd (ground arith)

  after_decision-IsSkip :
      (dirty : ℕ) (state : StoredState) (interval : ℕ) (force : Bool) (d : ScanDecision)
      → decide_scan dirty state interval force ≡ d
      → IsSkip state.cycles_since_full_scan interval (after_decision start input state d)
  unfolding merge_cycle_state
  after_decision-IsSkip dirty state interval force (skip_clean due) e = λ u v.
      let q = decide_scan-IsQuiet dirty state interval force due e in
      (refl, omega (arith, q.left, q.some_left))
  after_decision-IsSkip dirty state interval force (run_full_scan reason) e =
      after_engine-IsSkip state state.cycles_since_full_scan interval input.engine

  paused_or_scanning-IsSkip :
      (cfg : DaemonConfig) (state : StoredState) (force : Bool) (reason : Option Str)
      → IsSkip state.cycles_since_full_scan cfg.force_full_scan_interval_cycles
          (paused_or_scanning cfg start input state force reason)
  paused_or_scanning-IsSkip cfg state force none =
      let counted : StoredState = record state { last_dirty_count = input.drained_count } in
      after_decision-IsSkip input.drained_count counted cfg.force_full_scan_interval_cycles force _
        refl
  paused_or_scanning-IsSkip cfg state force (some reason) = λ u v. absurd (ground arith)

  safe_or-IsSkip :
      (on : Bool) (safe : StoredState) (count interval : ℕ) (more : StoredState → CycleEnd)
      → IsSkip count interval (more safe)
      → IsSkip count interval (safe_or on safe input more)
  safe_or-IsSkip true safe count interval more k = λ u v. absurd (ground arith)
  safe_or-IsSkip false safe count interval more k = k

  probed_or_failed-IsSkip :
      (joined : Bool) (count interval : ℕ) (end : CycleEnd)
      → IsSkip count interval end
      → IsSkip count interval (probed_or_failed joined input.current end)
  probed_or_failed-IsSkip true count interval end k = k
  probed_or_failed-IsSkip false count interval end k = λ u v. absurd (ground (arith, u))

recovered_count :
    (back : Bool) (now : ℤ) (state : StoredState)
    → (if back then recovered now state else state).cycles_since_full_scan
      ≡ state.cycles_since_full_scan
recovered_count true now state = refl
recovered_count false now state = refl

run_cycle-IsSkip :
    (cfg : DaemonConfig) (start : StoredState) (input : CycleInput)
    → IsSkip start.cycles_since_full_scan cfg.force_full_scan_interval_cycles
        (run_cycle cfg start input)
unfolding run_cycle apply_destination_health
run_cycle-IsSkip cfg start input =
    let begun : StoredState = record start { last_dirty_count = input.dirty_at_start } in
    let probed = apply_destination_health begun input.health input.now in
    let state : StoredState =
      if probed.1.destination_recovered then recovered input.now probed.0 else probed.0 in
    let safe : StoredState = record state { safe_mode = input.shared_safe_mode } in
    let same : safe.cycles_since_full_scan ≡ start.cycles_since_full_scan =
      recovered_count probed.1.destination_recovered input.now probed.0 in
    probed_or_failed-IsSkip start input input.probe_joined start.cycles_since_full_scan
      cfg.force_full_scan_interval_cycles _
      (safe_or-IsSkip start input (cfg.safe_mode || input.shared_safe_mode) safe
        start.cycles_since_full_scan cfg.force_full_scan_interval_cycles
        (λ st.
          paused_or_scanning cfg start input st probed.1.destination_recovered
            probed.1.pause_reason)
        (λ u v.
          let (a, b) =
            paused_or_scanning-IsSkip start input cfg safe probed.1.destination_recovered
              probed.1.pause_reason u v in
          (a ∙ ap (λ n. sat_add n 1) same, omega (arith, b, same))))

-- Consecutive cycles, each of which starts from the state that the one before left, drains the dirty
-- set and does not run the engine; how many there are.
pub data Skips (cfg : DaemonConfig) (start : StoredState) : ℕ → StoredState → Type 0 where
  begin : Skips cfg start 0 start
  skipped :
      {n : ℕ} {state : StoredState}
      → Skips cfg start n state
      → (input : CycleInput) → (run_cycle cfg state input).drained ≡ true
      → (run_cycle cfg state input).engine_ran ≡ false
      → Skips cfg start (suc n) (run_cycle cfg state input).shared

Skips-count :
    (cfg : DaemonConfig) (start : StoredState)
    → max cfg.force_full_scan_interval_cycles 1 ≤ 0xFFFF_FFFF_FFFF_FFFF
    → {n : ℕ} {state : StoredState} → Skips cfg start n state
    → (start.cycles_since_full_scan + n ≡ state.cycles_since_full_scan)
      × (n ≤ max cfg.force_full_scan_interval_cycles 1 - 1 - start.cycles_since_full_scan)
unfolding sat_add
Skips-count cfg start h begin = (omega arith, omega arith)
Skips-count cfg start h (skipped {n} {state} run input d e) =
    let (a, b) = Skips-count cfg start h run in
    let (count, below) = run_cycle-IsSkip cfg state input d e in
    (omega (arith, a, count, below), omega (arith, a, b, below))

-- Quiet cycles do not go on for ever: with an interval that a u64 holds, from any state, at most as
-- many in a row drain the dirty set and go without the engine as the interval for forced scans
-- leaves, less one and less those that went before.
pub Skips-bounded :
    (cfg : DaemonConfig) (start : StoredState) (n : ℕ) (state : StoredState)
    → max cfg.force_full_scan_interval_cycles 1 ≤ 0xFFFF_FFFF_FFFF_FFFF
    → Skips cfg start n state
    → n ≤ max cfg.force_full_scan_interval_cycles 1 - 1 - start.cycles_since_full_scan
Skips-bounded cfg start n state h run = (Skips-count cfg start h run).1
