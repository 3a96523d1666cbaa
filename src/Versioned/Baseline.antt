-- ===== src/Versioned/Baseline.antt =====
-- The large-deletion baseline of crates/core/src/backup/versioned/store.rs: `manifest_size`,
-- `shrink_ratio` and `maybe_pin_large_deletion_baseline`.
pub mod Newest
pub mod Transitions
pub mod Settled
use backup_sync.Prelude.{
  ℕ, ◌+◌, ◌-◌, Bool, true, false, not, ◌&&◌, ◌||◌, Option, none, some, List, [], ◌∷◌, ◌==◌, ltb,
  leb, any, if◌then◌else◌, Str, str_eq, str_lt,
}
use backup_sync.Prelude.Int.{ℤ, int_lt, int_eq}
use backup_sync.Map.{Map, get, str_key}
use backup_sync.Versioned.Model.{VersionInfo, VersionIndex, ManifestEntry, Manifest, is_file}
use backup_sync.Versioned.Compare.{saturating_add}

-- What the engine takes from `f64`.
pub record F64 : Type 1 where
  pub F : Type 0
  -- `n as f64`
  pub of_nat : ℕ → F
  pub div : F → F → F
  pub max : F → F → F
  -- `clamp(0.0, 1.0)`
  pub clamp01 : F → F
  -- `<`, and `<= 0.0`
  pub less : F → F → Bool
  pub at_most_zero : F → Bool
  -- `(ratio * 100.0).round().clamp(0.0, 100.0) as u32`
  pub percent : F → ℕ

pub record ManifestSize : Type 0 where
  pub file_count : ℕ
  pub file_bytes : ℕ

unfoldable pub size_from : Map Str ManifestEntry → ManifestSize → ManifestSize
size_from [] out = out
size_from ((k, e) ∷ m) out = size_from m (
    if is_file e.kind
    then record {
      file_count = saturating_add out.file_count 1;
      file_bytes = saturating_add out.file_bytes e.len;
    }
    else out)

unfoldable pub manifest_size : Manifest → ManifestSize
unfolding size_from
manifest_size manifest = size_from manifest.entries (record { file_count = 0; file_bytes = 0 })

abbrev pub is_listed : Str → List VersionInfo → Bool
is_listed id versions = any (λ (v : VersionInfo). str_eq v.id id) versions

-- `created_at_unix.cmp(..).then_with(|| id.cmp(..))` is `Greater`.
abbrev pub later_version : VersionInfo → VersionInfo → Bool
later_version a b =
    int_lt b.created_at_unix a.created_at_unix
    || (int_eq a.created_at_unix b.created_at_unix && str_lt b.id a.id)

-- `max_by`: of equal ones, the last.
unfoldable pub newest : VersionInfo → List VersionInfo → VersionInfo
newest best [] = best
newest best (v ∷ vs) = newest (if later_version best v then best else v) vs

unfoldable pub baseline_of : List VersionInfo → Option Str
unfolding newest
baseline_of [] = none
baseline_of (v ∷ vs) = some (newest v vs).id

-- `index.safety_pinned_version_id` and the two pending fields, and whether any was changed.
pub record Safety : Type 0 where
  pub pinned : Option Str
  pub pending : Option Str
  pub first_seen : Option ℤ
  pub index_changed : Bool

abbrev pub safety_of : VersionIndex → Safety
safety_of index = record {
  pinned = index.safety_pinned_version_id;
  pending = index.safety_pending_version_id;
  first_seen = index.safety_pending_first_seen_unix;
  index_changed = false;
}

abbrev pub with_safety : VersionIndex → Safety → VersionIndex
with_safety index s = record index {
  safety_pinned_version_id = s.pinned;
  safety_pending_version_id = s.pending;
  safety_pending_first_seen_unix = s.first_seen;
}

abbrev pub clear_pending : Safety → Safety
clear_pending s = record s { pending = none; first_seen = none; index_changed = true }

abbrev pub drop_unlisted_pinned : List VersionInfo → Safety → Option Str → Safety
drop_unlisted_pinned versions s none = s
drop_unlisted_pinned versions s (some id) =
    if is_listed id versions then s else record s { pinned = none; index_changed = true }

abbrev pub drop_unlisted_pending : List VersionInfo → Safety → Option Str → Safety
drop_unlisted_pending versions s none = s
drop_unlisted_pending versions s (some id) = if is_listed id versions then s else clear_pending s

unfoldable pub settle : List VersionInfo → Safety → Safety
settle versions s =
    let t = drop_unlisted_pinned versions s s.pinned in drop_unlisted_pending versions t t.pending

abbrev pub read_pending : Safety → Option (Option Manifest) → Option Manifest × Safety
read_pending s (some (some m)) = (some m, s)
read_pending s (some none) = (none, clear_pending s)
read_pending s none = (none, clear_pending s)

-- The manifest of the pending version; a file that is missing or unreadable clears the pending one.
abbrev pub pending_manifest :
    Map Str (Option Manifest) → Safety → Option Str → Option Manifest × Safety
pending_manifest manifests s none = (none, s)
pending_manifest manifests s (some id) = read_pending s (get id manifests)

abbrev pub or_manifest : Option Manifest → Manifest → Manifest
or_manifest none prev = prev
or_manifest (some m) prev = m

-- The version that the warning names, and the percentage.
pub record SafetyWarning : Type 0 where
  pub baseline_id : Str
  pub percent : ℕ

module _ (f64 : F64) (now : ℤ) where
  -- `(prev - next) as f64 / prev as f64`, where a size of `prev` has shrunk.
  abbrev pub shrunk : ℕ → ℕ → f64.F
  shrunk prev next =
      if ltb 0 prev && leb next prev
      then f64.div (f64.of_nat (prev - next)) (f64.of_nat prev)
      else f64.of_nat 0

  unfoldable pub shrink_ratio : ManifestSize → ManifestSize → Option f64.F
  shrink_ratio prev next =
      if prev.file_bytes == 0 && prev.file_count == 0
      then none
      else some (
          f64.clamp01 (
            f64.max (shrunk prev.file_bytes next.file_bytes)
              (shrunk prev.file_count next.file_count)))

  abbrev pub first_detected : f64.F → Safety → Option Str → Option SafetyWarning × Safety
  first_detected ratio s none = (none, s)
  first_detected ratio s (some baseline_id) = (
    some (record { baseline_id = baseline_id; percent = f64.percent ratio }),
    record s { pending = some baseline_id; first_seen = some now; index_changed = true },
  )

  -- The shrink is there: the pending version is pinned, or else the newest version is pending.
  abbrev pub detected :
      List VersionInfo → f64.F → Safety → Option Str → Option SafetyWarning × Safety
  detected versions ratio s (some id) =
      (none, record { pinned = some id; pending = none; first_seen = none; index_changed = true })
  detected versions ratio s none = first_detected ratio s (baseline_of versions)

  abbrev pub no_shrink : Safety → Option Str → Safety
  no_shrink s none = s
  no_shrink s (some id) = clear_pending s

  abbrev pub judge :
      List VersionInfo → f64.F → Option f64.F → Safety → Option SafetyWarning × Safety
  judge versions threshold none s = (none, s)
  judge versions threshold (some ratio) s =
      if f64.less ratio threshold
      then (none, no_shrink s s.pending)
      else detected versions ratio s s.pending

  abbrev pub watch_shrink :
      f64.F
      → Map Str (Option Manifest)
      → List VersionInfo
      → Manifest
      → Manifest
      → Safety
      → Option Str
      → Option SafetyWarning × Safety
  watch_shrink threshold manifests versions prev next s (some pinned) = (none, s)
  watch_shrink threshold manifests versions prev next s none =
      let (baseline, t) = pending_manifest manifests s s.pending in
      judge versions threshold
        (shrink_ratio (manifest_size (or_manifest baseline prev)) (manifest_size next)) t

  unfoldable pub maybe_pin_large_deletion_baseline :
      f64.F
      → Map Str (Option Manifest)
      → Manifest
      → Manifest
      → VersionIndex
      → Bool
      → Option SafetyWarning × (Bool × VersionIndex)
  unfolding shrink_ratio manifest_size settle baseline_of
  maybe_pin_large_deletion_baseline threshold manifests prev next index had_read_failures =
      if had_read_failures || f64.at_most_zero threshold
      then (none, (false, index))
      else let s = settle index.versions (safety_of index) in
        let (warning, t) = watch_shrink threshold manifests index.versions prev next s s.pinned in
        (warning, (t.index_changed, with_safety index t))
