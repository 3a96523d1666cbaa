-- ===== src/Daemon/Cycle/Merge.antt =====
-- The fields of the daemon's state that a cycle of crates/daemon/src/runtime/cycle.rs does not own.
use backup_sync.Prelude.{
  ◌≡◌, ◌≢◌, refl, ap, inl, inr, Bool-cases, str_eq, str_eq_iff, arith, Bool, true, false, ◌||◌,
  Option, none, some, Str, Result, ok, err, if◌then◌else◌,
}
use backup_sync.Prelude.Int.{ℤ, pos, negsuc, int_eq}
use backup_sync.Daemon.State.{
  Warning, opt_eq, StoredState, safety_warning_eq, merge_cycle_state, EngineResult,
  apply_destination_health,
}
use backup_sync.Daemon.Cycle.{
  ScanDecision, run_full_scan, skip_clean, decide_scan, DaemonConfig, CycleInput, CycleEnd,
  committed, recovered, after_engine, after_decision, paused_or_scanning, safe_or, probed_or_failed,
  run_cycle,
}

-- What the other tasks wrote while the cycle ran is in `after`: the warning, where it differs from the
-- one of the start.
pub record KeepsOthers (start current after : StoredState) : Type 0 where
  pub safe_mode : after.safe_mode ≡ current.safe_mode
  pub verify_ts : after.last_verify_ts ≡ current.last_verify_ts
  pub verify_status : after.last_verify_status ≡ current.last_verify_status
  pub verify_issues : after.last_verify_issues ≡ current.last_verify_issues
  pub scrub_ts : after.last_scrub_full_ts ≡ current.last_scrub_full_ts
  pub warning :
      current.last_safety_warning ≢ start.last_safety_warning
      → after.last_safety_warning ≡ current.last_safety_warning

-- Warnings that the code takes for the same are the same.
int_eq-same : (a b : ℤ) → int_eq a b ≡ true → a ≡ b
int_eq-same (pos m) (pos n) h = let e : m ≡ n = ground (arith, h) in ap pos e
int_eq-same (pos m) (negsuc n) h = absurd (ground (arith, h))
int_eq-same (negsuc m) (pos n) h = absurd (ground (arith, h))
int_eq-same (negsuc m) (negsuc n) h = let e : m ≡ n = ground (arith, h) in ap negsuc e

same_fields :
    (v w : Warning)
    → v.ts ≡ w.ts
    → v.message ≡ w.message
    → v.watched_path ≡ w.watched_path
    → v.kept_version_id ≡ w.kept_version_id
    → v ≡ w
same_fields v w a b c d =
    λ i. record { ts = a i; message = b i; watched_path = c i; kept_version_id = d i }

opt_str_eq : (a b : Option Str) → opt_eq str_eq a b ≡ true → a ≡ b
opt_str_eq none none h = refl
opt_str_eq none (some t) h = absurd (ground (arith, h))
opt_str_eq (some s) none h = absurd (ground (arith, h))
opt_str_eq (some s) (some t) h = ap some ((str_eq_iff s t).0 h)

safety_warning_eq-same : (a b : Option Warning) → safety_warning_eq a b ≡ true → a ≡ b
unfolding safety_warning_eq
safety_warning_eq-same none none h = refl
safety_warning_eq-same none (some w) h = absurd (ground (arith, h))
safety_warning_eq-same (some v) none h = absurd (ground (arith, h))
safety_warning_eq-same (some v) (some w) h = ap some (same_fields v w ts message path version)
  where
    ts : v.ts ≡ w.ts
    ts = int_eq-same v.ts w.ts (ground (arith, h))

    message : v.message ≡ w.message
    message = (str_eq_iff v.message w.message).0 (ground (arith, h))

    path : v.watched_path ≡ w.watched_path
    path = opt_str_eq v.watched_path w.watched_path (ground (arith, h))

    version : v.kept_version_id ≡ w.kept_version_id
    version = opt_str_eq v.kept_version_id w.kept_version_id (ground (arith, h))

other_warning : (a b : Option Warning) → a ≢ b → safety_warning_eq a b ≡ false
other_warning a b ne = elim (Bool-cases (safety_warning_eq a b)) [
  | inl same ↦ absurd (ne (safety_warning_eq-same a b same))
  | inr differ ↦ differ
]

-- The start as the cycle knows it: its own copy may have other fields changed by then.
module _ (start : StoredState) (input : CycleInput) where
  abbrev Keeps : CycleEnd → Type 0
  Keeps end = KeepsOthers start input.current end.shared

  committed-Keeps :
      (baseline state : StoredState) (drained engine_ran : Bool)
      → baseline.last_safety_warning ≡ start.last_safety_warning
      → Keeps (committed baseline input state drained engine_ran)
  unfolding merge_cycle_state
  committed-Keeps baseline state drained engine_ran same = record {
    safe_mode = refl;
    verify_ts = refl;
    verify_status = refl;
    verify_issues = refl;
    scrub_ts = refl;
    warning = λ ne.
        let h = other_warning input.current.last_safety_warning start.last_safety_warning ne in
        rw same (rw h refl);
  }

  after_engine-Keeps :
      (state : StoredState) (r : Result Str EngineResult) → Keeps (after_engine start input state r)
  after_engine-Keeps state (err error) = record {
    safe_mode = refl;
    verify_ts = refl;
    verify_status = refl;
    verify_issues = refl;
    scrub_ts = refl;
    warning = λ h. refl;
  }
  after_engine-Keeps state (ok result) = committed-Keeps start _ true true refl

  after_decision-Keeps :
      (state : StoredState) (d : ScanDecision) → Keeps (after_decision start input state d)
  after_decision-Keeps state (skip_clean due) = committed-Keeps start _ true false refl
  after_decision-Keeps state (run_full_scan reason) = after_engine-Keeps state input.engine

  paused_or_scanning-Keeps :
      (cfg : DaemonConfig) (state : StoredState) (force : Bool) (reason : Option Str)
      → Keeps (paused_or_scanning cfg start input state force reason)
  paused_or_scanning-Keeps cfg state force none =
      let counted : StoredState = record state { last_dirty_count = input.drained_count } in
      after_decision-Keeps counted
        (decide_scan input.drained_count counted cfg.force_full_scan_interval_cycles force)
  paused_or_scanning-Keeps cfg state force (some reason) = committed-Keeps start _ false false refl

  safe_or-Keeps :
      (on : Bool) (safe : StoredState) (more : StoredState → CycleEnd)
      → safe.last_safety_warning ≡ start.last_safety_warning
      → ((st : StoredState) → Keeps (more st))
      → Keeps (safe_or on safe input more)
  safe_or-Keeps true safe more same k = committed-Keeps safe _ false false same
  safe_or-Keeps false safe more same k = k safe

  probed_or_failed-Keeps :
      (joined : Bool) (end : CycleEnd)
      → Keeps end
      → Keeps (probed_or_failed joined input.current end)
  probed_or_failed-Keeps true end k = k
  probed_or_failed-Keeps false end k = record {
    safe_mode = refl;
    verify_ts = refl;
    verify_status = refl;
    verify_issues = refl;
    scrub_ts = refl;
    warning = λ h. refl;
  }

recovered_warning :
    (back : Bool) (now : ℤ) (state : StoredState)
    → (if back then recovered now state else state).last_safety_warning ≡ state.last_safety_warning
recovered_warning true now state = refl
recovered_warning false now state = refl

-- A cycle, on every branch, failures included, and whatever the other tasks wrote to the shared state
-- while it ran, keeps the switch for safe mode, the results of the verification, and a safety warning
-- that is no longer the one of the start: one that was set, changed or removed since.
pub run_cycle-KeepsOthers :
    (cfg : DaemonConfig) (start : StoredState) (input : CycleInput)
    → KeepsOthers start input.current (run_cycle cfg start input).shared
unfolding run_cycle apply_destination_health
run_cycle-KeepsOthers cfg start input =
    let begun : StoredState = record start { last_dirty_count = input.dirty_at_start } in
    let probed = apply_destination_health begun input.health input.now in
    let state : StoredState =
      if probed.1.destination_recovered then recovered input.now probed.0 else probed.0 in
    probed_or_failed-Keeps start input input.probe_joined _ (
      safe_or-Keeps start input (cfg.safe_mode || input.shared_safe_mode)
        (record state { safe_mode = input.shared_safe_mode })
        (λ st.
          paused_or_scanning cfg start input st probed.1.destination_recovered
            probed.1.pause_reason)
        (recovered_warning probed.1.destination_recovered input.now probed.0)
        (λ st.
          paused_or_scanning-Keeps start input cfg st probed.1.destination_recovered
            probed.1.pause_reason))
