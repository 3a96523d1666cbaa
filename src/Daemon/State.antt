-- ===== src/Daemon/State.antt =====
-- The daemon's state (crates/core/src/state/models/mod.rs) and the updates of
-- crates/daemon/src/runtime/cycle.rs that fold an outcome into it.
use backup_sync.Prelude.{
  ℕ, Bool, true, false, not, ◌&&◌, ◌||◌, Option, none, some, List, [], ◌∷◌, ◌++◌, ◌==◌,
  if◌then◌else◌, Str, codes, str_eq, filter, map,
}
use backup_sync.Prelude.Int.{ℤ, int_eq}

-- `SafetyWarning` of the state, with the time of the cycle and a text.
pub record Warning : Type 0 where
  pub ts : ℤ
  pub message : Str
  pub watched_path : Option Str
  pub kept_version_id : Option Str

-- `files` and `recent_activity` stand as they are stored; nothing here looks into them.
pub record StoredState : Type 0 where
  pub files : Str
  pub last_run_ts : Option ℤ
  pub last_error : Option Str
  pub last_files_backed_up : ℕ
  pub prune_counter : ℕ
  pub last_dirty_count : ℕ
  pub cycles_since_full_scan : ℕ
  pub start_ts : Option ℤ
  pub version : Option Str
  pub last_verify_ts : Option ℤ
  pub last_verify_status : Option Str
  pub last_verify_issues : Option ℕ
  pub last_scrub_full_ts : Option ℤ
  pub recent_activity : Str
  pub safe_mode : Bool
  pub destination_paused : Bool
  pub destination_pause_reason : Option Str
  pub destination_unavailable_ids : List Str
  pub destination_last_unavailable_ts : Option ℤ
  pub destination_last_recovered_ts : Option ℤ
  pub replication_last_run_ts : Option ℤ
  pub replication_last_status : Option Str
  pub replication_last_error : Option Str
  pub replication_last_bytes_copied : ℕ
  pub replication_last_blobs_copied : ℕ
  pub replication_last_manifests_copied : ℕ
  pub replication_last_manifests_deleted : ℕ
  pub replication_last_pairs_ok : ℕ
  pub replication_last_pairs_failed : ℕ
  pub replication_last_targets_failed : List Str
  pub last_safety_warning : Option Warning

abbrev pub opt_eq : {A : Type 0} → (A → A → Bool) → Option A → Option A → Bool
opt_eq f none none = true
opt_eq f (some a) (some b) = f a b
opt_eq f _ _ = false

unfoldable pub safety_warning_eq : Option Warning → Option Warning → Bool
safety_warning_eq none none = true
safety_warning_eq (some left) (some right) =
    int_eq left.ts right.ts
    && str_eq left.message right.message
    && opt_eq str_eq left.watched_path right.watched_path
    && opt_eq str_eq left.kept_version_id right.kept_version_id
safety_warning_eq _ _ = false

-- `current` is the shared state when the cycle commits, `baseline` what it was at the start.
unfoldable pub merge_cycle_state : StoredState → StoredState → StoredState → StoredState
unfolding safety_warning_eq
merge_cycle_state current baseline cycle = record cycle {
  safe_mode = current.safe_mode;
  last_verify_ts = current.last_verify_ts;
  last_verify_status = current.last_verify_status;
  last_verify_issues = current.last_verify_issues;
  last_scrub_full_ts = current.last_scrub_full_ts;
  last_safety_warning =
      if safety_warning_eq current.last_safety_warning baseline.last_safety_warning
      then cycle.last_safety_warning
      else current.last_safety_warning;
}

-- `versioned::BackupCycleResult`, as far as the daemon folds it in.
pub record EngineResult : Type 0 where
  pub versions_created : ℕ
  pub safety_warnings : List Warning

abbrev pub last_or : Option Warning → List Warning → Option Warning
last_or w [] = w
last_or w (v ∷ vs) = last_or (some v) vs

unfoldable pub apply_backup_cycle_result : StoredState → EngineResult → ℤ → StoredState
apply_backup_cycle_result state result now = record state {
  last_files_backed_up = result.versions_created;
  last_run_ts = some now;
  last_error = none;
  cycles_since_full_scan = 0;
  last_safety_warning = last_or state.last_safety_warning result.safety_warnings;
}

pub record ReplicationReport : Type 0 where
  pub bytes_copied : ℕ
  pub blobs_copied : ℕ
  pub manifests_copied : ℕ
  pub manifests_deleted : ℕ
  pub pairs_ok : ℕ
  pub pairs_failed : ℕ
  pub targets_failed : List Str
  pub message : Str

unfoldable pub apply_replication_success : StoredState → ReplicationReport → ℤ → StoredState
apply_replication_success state summary now = record state {
  replication_last_run_ts = some now;
  replication_last_bytes_copied = summary.bytes_copied;
  replication_last_blobs_copied = summary.blobs_copied;
  replication_last_manifests_copied = summary.manifests_copied;
  replication_last_manifests_deleted = summary.manifests_deleted;
  replication_last_pairs_ok = summary.pairs_ok;
  replication_last_pairs_failed = summary.pairs_failed;
  replication_last_targets_failed = summary.targets_failed;
  replication_last_status =
      some (if summary.pairs_failed == 0 then codes "ok" else codes "degraded");
  replication_last_error = if summary.pairs_failed == 0 then none else some summary.message;
}

unfoldable pub apply_replication_failure : StoredState → Str → ℤ → StoredState
apply_replication_failure state error now = record state {
  replication_last_run_ts = some now;
  replication_last_status = some (codes "failed");
  replication_last_error = some error;
}

pub record DestinationWriteHealth : Type 0 where
  pub id : Str
  pub available : Bool
  pub message : Str

pub record DestinationPauseTransition : Type 0 where
  pub pause_reason : Option Str
  pub destination_recovered : Bool

abbrev pub is_some : {A : Type 0} → Option A → Bool
is_some none = false
is_some (some a) = true

-- `details.join(", ")`, of `"{id} ({message})"`.
abbrev joined : List DestinationWriteHealth → Str
joined [] = []
joined (d ∷ []) = d.id ++ codes " (" ++ d.message ++ codes ")"
joined (d ∷ ds) = d.id ++ codes " (" ++ d.message ++ codes ")" ++ codes ", " ++ joined ds

unfoldable pub pause_reason_of : List DestinationWriteHealth → Option Str
pause_reason_of [] = none
pause_reason_of (d ∷ ds) = some (
    codes "Destination unavailable: "
    ++ joined (d ∷ ds)
    ++ codes ". Writes paused and will auto-resume when the destination returns.")

unfoldable pub apply_destination_health :
    StoredState → List DestinationWriteHealth → ℤ → StoredState × DestinationPauseTransition
unfolding pause_reason_of
apply_destination_health state health now =
    let unavailable = filter (λ d. not d.available) health in
    let reason = pause_reason_of unavailable in
    let paused = is_some reason in
    (
      record state {
        destination_unavailable_ids = map (λ d. d.id) unavailable;
        destination_paused = paused;
        destination_pause_reason = reason;
        destination_last_unavailable_ts =
            if paused
              && (not state.destination_paused
                  || not (is_some state.destination_last_unavailable_ts))
            then some now
            else state.destination_last_unavailable_ts;
      },
      record {
        pause_reason = reason;
        destination_recovered = state.destination_paused && not paused;
      },
    )

pub record VerifyStateUpdate : Type 0 where
  pub last_verify_ts : Option ℤ
  pub last_verify_status : Option Str
  pub last_verify_issues : Option ℕ
  pub last_scrub_full_ts : Option ℤ

abbrev or_kept : Option ℤ → Option ℤ → Option ℤ
or_kept (some ts) before = some ts
or_kept none before = before

unfoldable pub apply_verify_update : StoredState → VerifyStateUpdate → StoredState
apply_verify_update state update = record state {
  last_verify_ts = update.last_verify_ts;
  last_verify_status = update.last_verify_status;
  last_verify_issues = update.last_verify_issues;
  last_scrub_full_ts = or_kept update.last_scrub_full_ts state.last_scrub_full_ts;
}
