-- ===== src/Versioned/Baseline/Transitions.antt =====
-- How one scan moves the large-deletion baseline: none, pending, pinned.
use backup_sync.Prelude.{
  ◌≡◌, refl, false, Option, none, some, List, ap, ◌∙◌, Str, ◌⊎◌, inl, inr, Bool-cases, arith,
}
use backup_sync.Prelude.Int.{ℤ}
use backup_sync.Map.{Map, get, str_key}
use backup_sync.Versioned.Model.{VersionInfo, Manifest}
use backup_sync.Versioned.Baseline.{
  F64, SafetyWarning, Safety, clear_pending, baseline_of, pending_manifest, or_manifest, detected,
  first_detected, read_pending, no_shrink, judge, watch_shrink, shrink_ratio, manifest_size,
}

-- What a scan may do to the two identifiers.
pub record IsMove (versions : List VersionInfo) (Seen : Type 0) (s : Safety)
    (w : Option SafetyWarning) (t : Safety) : Type 0 where
  -- A version is pinned only if it was, or was pending and a shrink is seen.
  pub pinned_from :
      (id : Str) → t.pinned ≡ some id → (s.pinned ≡ some id) ⊎ ((s.pending ≡ some id) × Seen)
  -- A version is pending only if it was, or is the newest, none is pinned and a shrink is seen.
  pub pending_from :
      (id : Str)
      → t.pending ≡ some id
      → (s.pending ≡ some id) ⊎ ((baseline_of versions ≡ some id) × ((s.pinned ≡ none) × Seen))
  pub pinned_stays : (id : Str) → s.pinned ≡ some id → t.pinned ≡ some id
  -- The warning names the version that has become pending.
  pub warned : (x : SafetyWarning) → w ≡ some x → t.pending ≡ some x.baseline_id

module _ (f64 : F64) (now : ℤ) (versions : List VersionInfo) (Seen : Type 0) where
  unmoved : (s : Safety) → IsMove versions Seen s none s
  unmoved s = record {
    pinned_from = λ id p. inl p;
    pending_from = λ id p. inl p;
    pinned_stays = λ id p. p;
    warned = λ x p. cc;
  }

  cleared : (s : Safety) → IsMove versions Seen s none (clear_pending s)
  cleared s = record {
    pinned_from = λ id p. inl p;
    pending_from = λ id p. cc;
    pinned_stays = λ id p. p;
    warned = λ x p. cc;
  }

  first_detected-IsMove :
      (ratio : f64.F) (s : Safety) (baseline : Option Str)
      → s.pinned ≡ none
      → baseline_of versions ≡ baseline
      → Seen
      → let r = first_detected f64 now ratio s baseline in IsMove versions Seen s r.0 r.1
  first_detected-IsMove ratio s none none_pinned q seen = unmoved s
  first_detected-IsMove ratio s (some id) none_pinned q seen = record {
    pinned_from = λ j p. inl p;
    pending_from = λ j p. inr (q ∙ p, (none_pinned, seen));
    pinned_stays = λ j p. p;
    warned = λ x p.
        ap (λ (t : Option SafetyWarning). elim t [ none ↦ none | some y ↦ some y.baseline_id ]) p;
  }

  detected-IsMove :
      (ratio : f64.F) (s : Safety) (pending : Option Str)
      → s.pinned ≡ none
      → s.pending ≡ pending
      → Seen
      → let r = detected f64 now versions ratio s pending in IsMove versions Seen s r.0 r.1
  detected-IsMove ratio s (some id) none_pinned q seen = record {
    pinned_from = λ j p. inr (q ∙ p, seen);
    pending_from = λ j p. cc;
    pinned_stays = λ j p. absurd (ground (arith, none_pinned, p));
    warned = λ x p. cc;
  }
  detected-IsMove ratio s none none_pinned q seen =
      first_detected-IsMove ratio s (baseline_of versions) none_pinned refl seen

  no_shrink-IsMove :
      (s : Safety) (pending : Option Str)
      → IsMove versions Seen s none (no_shrink f64 now s pending)
  no_shrink-IsMove s none = unmoved s
  no_shrink-IsMove s (some id) = cleared s

  judge-IsMove :
      (threshold : f64.F) (ratio : Option f64.F) (s : Safety)
      → s.pinned ≡ none
      → ((x : f64.F) → ratio ≡ some x → f64.less x threshold ≡ false → Seen)
      → let r = judge f64 now versions threshold ratio s in IsMove versions Seen s r.0 r.1
  judge-IsMove threshold none s none_pinned seen = unmoved s
  judge-IsMove threshold (some ratio) s none_pinned seen =
      elim (Bool-cases (f64.less ratio threshold)) [
        | inl small ↦ rw small (no_shrink-IsMove s s.pending)
        | inr large ↦
            rw large (detected-IsMove ratio s s.pending none_pinned refl (seen ratio refl large))
      ]

  -- A move from where the pending version is cleared is one from where it is not.
  after_clear :
      (s : Safety) {w : Option SafetyWarning} {t : Safety}
      → IsMove versions Seen (clear_pending s) w t
      → IsMove versions Seen s w t
  after_clear s {w} {t} m = record {
    pinned_from = λ id p. elim (m.pinned_from id p) [
      | inl was ↦ inl was
      | inr (pending, seen) ↦ absurd (none_pending id pending)
    ];
    pending_from = λ id p. elim (m.pending_from id p) [
      | inl was ↦ absurd (none_pending id was)
      | inr new ↦ inr new
    ];
    pinned_stays = m.pinned_stays;
    warned = m.warned;
  }
    where
      none_pending : (id : Str) → none ≡ some id → ⊥
      none_pending id p = cc

  -- What may be pending is what was, when the pending manifest has been read.
  judged-IsMove :
      (threshold : f64.F) (prev next : Manifest) (s : Safety) (found : Option (Option Manifest))
      → s.pinned ≡ none
      → ((base : Manifest)
          → (base ≡ prev) ⊎ (found ≡ some (some base))
          → (x : f64.F) → shrink_ratio f64 now (manifest_size base) (manifest_size next) ≡ some x
          → f64.less x threshold ≡ false
          → Seen)
      → let (baseline, t) = read_pending s found in
        let r =
          judge f64 now versions threshold
            (shrink_ratio f64 now (manifest_size (or_manifest baseline prev)) (manifest_size next))
            t in
        IsMove versions Seen s r.0 r.1
  judged-IsMove threshold prev next s (some (some m)) none_pinned seen =
      judge-IsMove threshold (shrink_ratio f64 now (manifest_size m) (manifest_size next)) s
        none_pinned (seen m (inr refl))
  judged-IsMove threshold prev next s (some none) none_pinned seen = after_clear s (
      judge-IsMove threshold (shrink_ratio f64 now (manifest_size prev) (manifest_size next))
        (clear_pending s) none_pinned (seen prev (inl refl)))
  judged-IsMove threshold prev next s none none_pinned seen = after_clear s (
      judge-IsMove threshold (shrink_ratio f64 now (manifest_size prev) (manifest_size next))
        (clear_pending s) none_pinned (seen prev (inl refl)))

  pub watch_shrink-IsMove :
      (threshold : f64.F) (manifests : Map Str (Option Manifest)) (prev next : Manifest)
      (s : Safety) (pinned : Option Str)
      → s.pinned ≡ pinned
      → ((base : Manifest)
          → (base ≡ prev)
            ⊎ ((id : Str) × ((s.pending ≡ some id) × (get id manifests ≡ some (some base))))
          → (x : f64.F) → shrink_ratio f64 now (manifest_size base) (manifest_size next) ≡ some x
          → f64.less x threshold ≡ false
          → Seen)
      → let r = watch_shrink f64 now threshold manifests versions prev next s pinned in
        IsMove versions Seen s r.0 r.1
  watch_shrink-IsMove threshold manifests prev next s (some id) q seen = unmoved s
  watch_shrink-IsMove threshold manifests prev next s none q seen = pending_cases s.pending refl
    where
      pending_cases :
          (pending : Option Str)
          → s.pending ≡ pending
          → let (baseline, t) = pending_manifest manifests s pending in
            let r =
              judge f64 now versions threshold
                (shrink_ratio f64 now
                  (manifest_size (or_manifest baseline prev))
                  (manifest_size next))
                t in
            IsMove versions Seen s r.0 r.1
      pending_cases none e =
          judge-IsMove threshold (shrink_ratio f64 now (manifest_size prev) (manifest_size next)) s
            q (seen prev (inl refl))
      pending_cases (some id) e =
          judged-IsMove threshold prev next s (get id manifests) q (λ base from. elim from [
            | inl is_prev ↦ seen base (inl is_prev)
            | inr found ↦ seen base (inr (id, (e, found)))
          ])
