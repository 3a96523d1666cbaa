-- ===== src/Versioned/Commit/Unlisted.antt =====
-- The versions that retention leaves in the index, beside those that it prunes (store.rs).
use backup_sync.Prelude.{
  ◌≡◌, true, false, not, List, [], ◌∷◌, ap, map, Str, str_eq, inl, inr, Bool-cases, arith, In,
}
use backup_sync.Map.{str_key}
use backup_sync.Versioned.Model.{VersionInfo}
use backup_sync.Versioned.Prune.{contains, retain_unpruned}
use backup_sync.Versioned.Commit.Writes.{In-filter}

contains_pruned :
    (p : VersionInfo) (id : Str) (pruned : List VersionInfo)
    → In p pruned
    → str_eq p.id id ≡ true
    → contains id (map (λ v. v.id) pruned) ≡ true
unfolding contains
contains_pruned p id [] place same = absurd place
contains_pruned p id (v ∷ pruned) (inl here) same =
    let g = ap (λ (t : VersionInfo). str_eq t.id id) here in ground (arith, g, same)
contains_pruned p id (v ∷ pruned) (inr later) same =
    ground (arith, contains_pruned p id pruned later same)

-- What is left does not name what is pruned.
pub retained_unlisted :
    (pruned versions : List VersionInfo) (p v : VersionInfo)
    → In p pruned
    → In v (retain_unpruned pruned versions)
    → str_eq p.id v.id ≡ false
unfolding retain_unpruned
retained_unlisted pruned versions p v place left =
    let (listed, passes) =
      In-filter (λ w. not (contains w.id (map (λ x. x.id) pruned))) v versions left in
    elim (Bool-cases (str_eq p.id v.id)) [
      | inr other ↦ other
      | inl same ↦ absurd (ground (arith, passes, contains_pruned p v.id pruned place same))
    ]

pub retained_listed :
    (pruned versions : List VersionInfo) (v : VersionInfo)
    → In v (retain_unpruned pruned versions)
    → In v versions
unfolding retain_unpruned
retained_listed pruned versions v left =
    (In-filter (λ w. not (contains w.id (map (λ x. x.id) pruned))) v versions left).0
