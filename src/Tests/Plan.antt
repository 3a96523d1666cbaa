-- ===== src/Tests/Plan.antt =====
-- The theorems on retention, the baseline, validation, retries and the scrub, at small inputs.
use backup_sync.Prelude.{
  ℕ, zero, suc, ◌+◌, ◌-◌, ◌≤◌, ◌≡◌, ◌↔◌, refl, true, false, not, none, some, List, [], ◌∷◌, length,
  filter, take, Str, codes, Result, ok, err, is_ok, In, inl, arith, if◌then◌else◌, ◌==◌,
}
use backup_sync.Prelude.Int.{pos}
use backup_sync.Versioned.Scan.{file_entry}
use backup_sync.Map.{str_key}
use backup_sync.Versioned.Model.{VersionIndex, Manifest}
use backup_sync.Versioned.Disk.{StoreError, io_failed}
use backup_sync.Versioned.Prune.{
  contains, protected_ids, collect_prunable_versions, retain_unpruned,
  collect_prunable_versions-eq-take,
}
use backup_sync.Versioned.Prune.Marked.{IsUnique}
use backup_sync.Versioned.Prune.Retained.{
  protected_is_retained, length-retain_unpruned, newest_is_retained,
}
use backup_sync.Versioned.Validation.{
  validate_version_index, IsSafeIndex, validate_version_index_iff,
}
use backup_sync.Versioned.Retry.{
  retry_with_backoff, IsFirstSuccess, retry_with_backoff-IsFirstSuccess,
  retry_with_backoff_succeeds, attempt,
}
use backup_sync.Versioned.Scrub.{sampled, select_hashes_for_mode}
use backup_sync.Versioned.Scrub.Selection.{
  IsDistinct, IsSample, sample_size, select_hashes_for_mode-IsSample,
}
use backup_sync.Versioned.Compare.{manifests_equivalent, diff_for_simulation}
use backup_sync.Versioned.Compare.Preview.{manifests_equivalent-iff-preview}
use backup_sync.Tests.Fixture.{digest, watched, index, versions}

collect_prunable_versions-eq-take_example :
    collect_prunable_versions index 1
    ≡ take
        (length versions - (1 + length (protected_ids index)))
        (filter (λ v. not (contains v.id (protected_ids index))) versions)
collect_prunable_versions-eq-take_example = collect_prunable_versions-eq-take index 1

protected_is_retained_example :
    In
      (record { id = codes "v1"; created_at_unix = pos 1 })
      (retain_unpruned (collect_prunable_versions index 1) versions)
unfolding contains protected_ids
protected_is_retained_example =
    protected_is_retained index 1 (record { id = codes "v1"; created_at_unix = pos 1 }) (inl refl)
      (inl refl)

versions-IsUnique : IsUnique versions
unfolding contains
versions-IsUnique = (refl, (refl, (refl, tt)))

length-retain_unpruned_example :
    length (retain_unpruned (collect_prunable_versions index 1) versions)
    ≤ 1 + length (protected_ids index)
length-retain_unpruned_example = length-retain_unpruned index 1 versions-IsUnique

newest_is_retained_example :
    In
      (record { id = codes "v3"; created_at_unix = pos 3 })
      (retain_unpruned (collect_prunable_versions index 1) versions)
newest_is_retained_example =
    newest_is_retained index 1
      (record { id = codes "v1"; created_at_unix = pos 1 }
        ∷ record { id = codes "v2"; created_at_unix = pos 2 }
        ∷ [])
      (record { id = codes "v3"; created_at_unix = pos 3 }) refl versions-IsUnique (omega arith)

abbrev empty_manifest : Manifest
empty_manifest = record {
  schema_version = 1;
  source_path = codes "/home";
  created_at_unix = pos 9;
  source_snapshot = none;
  source_snapshot_error = none;
  read_failures = [];
  entries = [];
}

-- A manifest of one file.
abbrev full_manifest : Manifest
full_manifest = record empty_manifest {
  entries = (codes "a.txt", file_entry (codes "a.txt") 3 (pos 0, 0) digest) ∷ [];
}

-- The index without a pinned version, before a scan that finds the source empty.
abbrev calm : VersionIndex
calm = record index { safety_pinned_version_id = none }

validate_version_index_iff_example : (validate_version_index index ≡ ok tt) ↔ IsSafeIndex index
validate_version_index_iff_example = validate_version_index_iff index

-- The first attempt fails and the second succeeds.
abbrev second_time : ℕ → Result StoreError ℕ
second_time i = if i == 0 then err (io_failed []) else ok 5

retries_once : retry_with_backoff 0 (λ i. i) second_time 2 ≡ ok (5, 2)
unfolding retry_with_backoff attempt
retries_once = refl

retry_with_backoff-IsFirstSuccess_example : IsFirstSuccess 0 (λ i. i) second_time 0 3 5 2
retry_with_backoff-IsFirstSuccess_example =
    retry_with_backoff-IsFirstSuccess 0 (λ i. i) second_time 2 5 2 retries_once

retry_with_backoff_succeeds_example : is_ok (retry_with_backoff 0 (λ i. i) second_time 2) ≡ true
retry_with_backoff_succeeds_example =
    retry_with_backoff_succeeds 0 (λ i. i) second_time 2 1 refl (omega arith) refl

abbrev hashes : List Str
hashes = codes "a" ∷ codes "b" ∷ []

hashes-IsDistinct : IsDistinct hashes
hashes-IsDistinct i zero a low p q = absurd (omega (arith, low))
hashes-IsDistinct zero (suc zero) a low p q = ground (arith, p, q)
hashes-IsDistinct (suc i) (suc zero) a low p q = absurd (omega (arith, low))
hashes-IsDistinct i (suc (suc j)) a low p q = cc

select_hashes_for_mode-IsSample_example :
    (selected : List Str) × (select_hashes_for_mode hashes 1 sampled 5 ≡ ok selected)
    × IsSample hashes (sample_size hashes 1 sampled) selected
select_hashes_for_mode-IsSample_example =
    select_hashes_for_mode-IsSample hashes 1 sampled 5 hashes-IsDistinct

manifests_equivalent-iff-preview_example :
    let p = diff_for_simulation none (λ h. false) watched 2 (some empty_manifest) full_manifest in
    (manifests_equivalent empty_manifest full_manifest ≡ true)
    ↔ (p.adds ≡ 0) × (p.modifies ≡ 0) × (p.deletes ≡ 0)
manifests_equivalent-iff-preview_example =
    manifests_equivalent-iff-preview none (λ h. false) watched 2 empty_manifest full_manifest tt
      (tt, tt)
