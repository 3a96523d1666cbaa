-- ===== src/Versioned/Compare/Preview.antt =====
-- `manifests_equivalent` beside `diff_for_simulation` (store.rs).
use backup_sync.Prelude.{
  ℕ, ◌+◌, ◌≡◌, ◌↔◌, refl, inl, inr, Bool, true, Option, some, [], ◌∷◌, arith, Str, length,
  Bool-cases, Option-cases,
}
use backup_sync.Map.{Map, str_key, get, contains_key, contains_key-get}
use backup_sync.Map.Sorted.{IsSorted}
use backup_sync.Versioned.Model.{ManifestEntry, Manifest}
use backup_sync.Versioned.Compare.{
  all_same, manifests_equivalent, Change, unchanged, change_of, Diff, no_diff, WatchedPath,
  push_sample, count_entry, count_changes, count_deletes, diff_for_simulation,
}
use backup_sync.Versioned.Compare.Overlap.{shared, missing, shared_comm, shared_add_missing}

abbrev is_change : Change → ℕ
is_change unchanged = 0
is_change _ = 1

-- The entries of the next map that are new or differ.
abbrev changes : Map Str ManifestEntry → Map Str ManifestEntry → ℕ
changes prev [] = 0
changes prev ((k, e) ∷ next) = is_change (change_of (get k prev) e) + changes prev next

all_same-changes :
    (prev next : Map Str ManifestEntry) → (all_same prev next ≡ true) ↔ (changes prev next ≡ 0)
unfolding all_same
all_same-changes prev [] = (λ h. refl, λ h. refl)
all_same-changes prev ((k, e) ∷ next) = ground (arith, all_same-changes prev next)

-- Without a change every key of the next map is an old one.
unchanged-missing :
    (prev next : Map Str ManifestEntry) → changes prev next ≡ 0 → missing next prev ≡ 0
unchanged-missing prev [] h = refl
unchanged-missing prev ((k, e) ∷ next) h = elim (Option-cases (get k prev)) [
  | inl gone ↦ absurd (ground (arith, gone, h))
  | inr (old, there) ↦
      ground
        (arith, contains_key-get k old prev there, unchanged-missing prev next (omega (arith, h)))
]

module _ (home : Option Str) (exists : Str → Bool) (watched : WatchedPath) (sample_limit : ℕ) where
  count_entry_counts :
      (prev_e : Option ManifestEntry) (e : ManifestEntry) (d : Diff)
      → let d' = count_entry home exists watched sample_limit prev_e e d in
        (d'.adds + d'.modifies ≡ d.adds + d.modifies + is_change (change_of prev_e e))
        × (d'.deletes ≡ d.deletes)
  unfolding count_entry
  count_entry_counts prev_e e d = ground arith

  count_changes_counts :
      (prev next : Map Str ManifestEntry) (d : Diff)
      → let d' = count_changes home exists watched sample_limit prev next d in
        (d'.adds + d'.modifies ≡ d.adds + d.modifies + changes prev next) × (d'.deletes ≡ d.deletes)
  unfolding count_changes
  count_changes_counts prev [] d = omega arith
  count_changes_counts prev ((k, e) ∷ next) d = omega (
    arith,
    count_entry_counts (get k prev) e d,
    count_changes_counts prev next (count_entry home exists watched sample_limit (get k prev) e d),
  )

  push_sample_counts :
      (prefix : ℕ) (rel_path : Str) (d : Diff)
      → let d' = push_sample home exists watched sample_limit prefix rel_path d in
        (d'.adds ≡ d.adds) × (d'.modifies ≡ d.modifies) × (d'.deletes ≡ d.deletes)
  unfolding push_sample
  push_sample_counts prefix rel_path d = ground arith

  count_deletes_counts :
      (next prev : Map Str ManifestEntry) (d : Diff)
      → let d' = count_deletes home exists watched sample_limit next prev d in
        (d'.adds ≡ d.adds)
        × (d'.modifies ≡ d.modifies)
        × (d'.deletes ≡ d.deletes + missing prev next)
  unfolding count_deletes
  count_deletes_counts next [] d = omega arith
  count_deletes_counts next ((k, e) ∷ prev) d = elim (Bool-cases (contains_key k next)) [
    | inl kept ↦ ground (arith, kept, count_deletes_counts next prev d)
    | inr gone ↦
        let d' =
          push_sample home exists watched sample_limit b'-' e.rel_path
            (record d { deletes = d.deletes + 1 }) in
        let now : (d'.adds ≡ d.adds) × (d'.modifies ≡ d.modifies) × (d'.deletes ≡ d.deletes + 1) =
          push_sample_counts b'-' e.rel_path (record d { deletes = d.deletes + 1 }) in
        ground (arith, gone, now, count_deletes_counts next prev d')
  ]

  abbrev preview : Manifest → Manifest → Diff
  preview prev next = diff_for_simulation home exists watched sample_limit (some prev) next

  preview_counts :
      (prev next : Manifest)
      → ((preview prev next).adds + (preview prev next).modifies
          ≡ changes prev.entries next.entries)
        × ((preview prev next).deletes ≡ missing prev.entries next.entries)
  unfolding diff_for_simulation
  preview_counts prev next =
      let d = count_changes home exists watched sample_limit prev.entries next.entries no_diff in
      omega (
        arith,
        count_changes_counts prev.entries next.entries no_diff,
        count_deletes_counts next.entries prev.entries d,
      )

  -- For manifests as the store keeps them (keys in order), the test by which a backup finds no change
  -- passes exactly when the preview of the same two manifests counts nothing added, modified or
  -- deleted.
  pub manifests_equivalent-iff-preview :
      (prev next : Manifest)
      → IsSorted prev.entries
      → IsSorted next.entries
      → (manifests_equivalent prev next ≡ true)
        ↔ ((preview prev next).adds ≡ 0)
          × ((preview prev next).modifies ≡ 0)
          × ((preview prev next).deletes ≡ 0)
  unfolding manifests_equivalent
  manifests_equivalent-iff-preview prev next p q = (
    λ h.
        let same : (length prev.entries ≡ length next.entries)
            × (all_same prev.entries next.entries ≡ true) =
          ground arith in
        let calm = (all_same-changes prev.entries next.entries).0 same.1 in
        omega (arith, counts, same, calm, unchanged-missing prev.entries next.entries calm, sizes),
    λ h.
        let calm : changes prev.entries next.entries ≡ 0 = omega (arith, counts, h) in
        ground (
          arith,
          (all_same-changes prev.entries next.entries).1 calm,
          same_size calm (omega (arith, counts, h)),
        ),
  )
    where
      counts :
          ((preview prev next).adds + (preview prev next).modifies
            ≡ changes prev.entries next.entries)
          × ((preview prev next).deletes ≡ missing prev.entries next.entries)
      counts = preview_counts prev next

      sizes :
          (shared prev.entries next.entries ≡ shared next.entries prev.entries)
          × (shared prev.entries next.entries + missing prev.entries next.entries
              ≡ length prev.entries)
          × (shared next.entries prev.entries + missing next.entries prev.entries
              ≡ length next.entries)
      sizes = (
        shared_comm prev.entries next.entries p q,
        shared_add_missing prev.entries next.entries,
        shared_add_missing next.entries prev.entries,
      )

      same_size :
          changes prev.entries next.entries ≡ 0
          → missing prev.entries next.entries ≡ 0
          → length prev.entries ≡ length next.entries
      same_size calm none_gone =
          omega (arith, sizes, unchanged-missing prev.entries next.entries calm)
