-- ===== src/Versioned/Baseline/Settled.antt =====
-- One scan's effect on the large-deletion baseline of an index.
use backup_sync.Prelude.{◌≡◌, true, false, Option, some, List, Str, ◌⊎◌}
use backup_sync.Prelude.Int.{ℤ}
use backup_sync.Map.{Map, get, str_key}
use backup_sync.Versioned.Model.{VersionInfo, VersionIndex, Manifest}
use backup_sync.Versioned.Baseline.{
  F64, SafetyWarning, Safety, is_listed, shrink_ratio, manifest_size,
}
use backup_sync.Versioned.Baseline.Newest.{IsNewest}

-- Identifiers that no version has are dropped, and the others stay.
record IsSettled (versions : List VersionInfo) (s t : Safety) : Type 0 where
  pinned_from :
      (id : Str) → t.pinned ≡ some id → (is_listed id versions ≡ true) × (s.pinned ≡ some id)
  pending_from :
      (id : Str) → t.pending ≡ some id → (is_listed id versions ≡ true) × (s.pending ≡ some id)
  pinned_stays : (id : Str) → s.pinned ≡ some id → is_listed id versions ≡ true → t.pinned ≡ some id

module _ (f64 : F64) (now : ℤ) (threshold : f64.F) (manifests : Map Str (Option Manifest))
    (prev next : Manifest) (index : VersionIndex) where
  -- The sizes shrank by the threshold or more, from the previous manifest or the one of the pending
  -- version.
  pub record IsShrink : Type 0 where
    pub base : Manifest
    pub from :
        (base ≡ prev)
        ⊎ ((id : Str) × ((index.safety_pending_version_id ≡ some id)
              × (get id manifests ≡ some (some base))))
    pub ratio : f64.F
    pub measured : shrink_ratio f64 now (manifest_size base) (manifest_size next) ≡ some ratio
    pub enough : f64.less ratio threshold ≡ false

  -- What a scan without read failures may do to an index.
  pub record IsBaselineMove (w : Option SafetyWarning) (after : VersionIndex) : Type 0 where
    pub same_versions : after.versions ≡ index.versions
    -- A pinned version is listed, and was pinned before, or was pending and a shrink is there.
    pub pinned_from :
        (id : Str)
        → after.safety_pinned_version_id ≡ some id
        → (is_listed id index.versions ≡ true)
          × ((index.safety_pinned_version_id ≡ some id)
              ⊎ ((index.safety_pending_version_id ≡ some id) × IsShrink))
    -- A pending version is listed, and was pending, or is the newest and a shrink is there.
    pub pending_from :
        (id : Str)
        → after.safety_pending_version_id ≡ some id
        → (is_listed id index.versions ≡ true)
          × ((index.safety_pending_version_id ≡ some id) ⊎ (IsNewest index.versions id × IsShrink))
    -- A pinned version that is listed stays pinned.
    pub pinned_stays :
        (id : Str)
        → index.safety_pinned_version_id ≡ some id
        → is_listed id index.versions ≡ true
        → after.safety_pinned_version_id ≡ some id
    -- The version that a warning names is pending.
    pub warned :
        (x : SafetyWarning) → w ≡ some x → after.safety_pending_version_id ≡ some x.baseline_id
