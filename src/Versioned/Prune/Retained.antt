-- ===== src/Versioned/Prune/Retained.antt =====
-- What the index still lists after `collect_prunable_versions` and `retain`.
use mathlib.Core.Path.{subst}
use mathlib.Core.Option.{some-injective}
use backup_sync.Prelude.{
  ℕ, suc, ◌+◌, ◌-◌, ◌≤◌, ◌≡◌, sym, ap, ◌⊎◌, inl, inr, Bool, true, not, List, [], ◌∷◌, ◌++◌, arith,
  Bool-cases, Option-cases, Option, none, some, Str, str_eq, str_eq_refl, str_eq_iff, length,
  filter, take, In, All, length-take, length-append, ◌∙◌,
}
use backup_sync.Versioned.Model.{VersionInfo, VersionIndex}
use backup_sync.Versioned.Prune.{
  contains, to_list, protected_ids, collect_prunable_versions, retain_unpruned,
  collect_prunable_versions-eq-take,
}
use backup_sync.Versioned.Prune.Marked.{
  All-contains, In-append_right, In-filter, In-filter_holds, In-of-filter, In-take, IsUnique,
  IsUnique-prefix, contains-ids, filter-append, ids, last_is_new, length-filter_add,
  length-take_marked, marked, marked_bound, take-append_short,
}

-- The identifier is the pinned or the pending one of the index.
abbrev pub IsProtected : VersionIndex → Str → Type 0
IsProtected index id =
    (index.safety_pinned_version_id ≡ some id) ⊎ (index.safety_pending_version_id ≡ some id)

contains_end : (id : Str) (ids : List Str) → contains id (ids ++ id ∷ []) ≡ true
unfolding contains
contains_end id [] = ground (arith, str_eq_refl id)
contains_end id (x ∷ ids) = ground (arith, contains_end id ids)

contains_more :
    (id other : Str) (ids : List Str)
    → contains id ids ≡ true
    → contains id (ids ++ other ∷ []) ≡ true
unfolding contains
contains_more id other [] h = cc
contains_more id other (x ∷ ids) h = elim (Bool-cases (str_eq x id)) [
  | inl same ↦ ground (arith, same)
  | inr differ ↦
      let rest : contains id ids ≡ true = ground (arith, h, differ) in
      ground (arith, contains_more id other ids rest)
]

contains_pinned :
    (pinned : Option Str) (id : Str) → pinned ≡ some id → contains id (to_list pinned) ≡ true
unfolding contains
contains_pinned none id p = cc
contains_pinned (some x) id p =
    let it : x ≡ id = some-injective x id p in ground (arith, (str_eq_iff x id).1 it)

IsProtected-protected_ids :
    (index : VersionIndex) (id : Str)
    → IsProtected index id
    → contains id (protected_ids index) ≡ true
unfolding protected_ids
IsProtected-protected_ids index id h = elim (Option-cases index.safety_pending_version_id) [
  | inl none_pending ↦ rw none_pending (elim h [
    | inl p ↦ contains_pinned index.safety_pinned_version_id id p
    | inr p ↦ cc (none_pending, p)
  ])
  | inr (x, is_pending) ↦
      let pinned = to_list index.safety_pinned_version_id in
      elim (Bool-cases (contains x pinned)) [
        | inl there ↦
            rw (is_pending, there)
              (elim h [
                | inl p ↦ contains_pinned index.safety_pinned_version_id id p
                | inr p ↦
                    let it : x ≡ id = cc (is_pending, p) in
                    subst (λ t. contains t pinned ≡ true) it there
              ])
        | inr new ↦
            rw (is_pending, new)
              (elim h [
                | inl p ↦
                    contains_more id x pinned (contains_pinned index.safety_pinned_version_id id p)
                | inr p ↦
                    let it : x ≡ id = cc (is_pending, p) in
                    subst (λ t. contains t (pinned ++ x ∷ []) ≡ true) it (contains_end x pinned)
              ])
      ]
]

-- The version that is pinned and the one that is pending are listed after retention if they were
-- listed before, however few versions are to be kept.
pub protected_is_retained :
    (index : VersionIndex) (keep_versions : ℕ) (v : VersionInfo)
    → In v index.versions
    → IsProtected index v.id
    → In v (retain_unpruned (collect_prunable_versions index keep_versions) index.versions)
unfolding retain_unpruned
protected_is_retained index keep_versions v m protected =
    In-filter _ v index.versions m (elim (Bool-cases (contains v.id (ids pruned))) [
      | inr f ↦ rw f
      | inl t ↦
          let (w, in_pruned, e) = contains-ids v.id pruned t in
          let free : not (contains w.id (protected_ids index)) ≡ true =
            In-filter_holds _ w index.versions (
              In-take _ w _ (
                subst (λ l. In w l) (collect_prunable_versions-eq-take index keep_versions)
                  in_pruned)) in
          cc (free, IsProtected-protected_ids index v.id protected, e)
    ])
  where
    pruned : List VersionInfo
    pruned = collect_prunable_versions index keep_versions

module _ (index : VersionIndex) (keep_versions : ℕ) (unique : IsUnique index.versions) where
  abbrev allowed : ℕ
  allowed = keep_versions + length (protected_ids index)

  abbrev free_versions : List VersionInfo
  free_versions = filter (λ v. not (contains v.id (protected_ids index))) index.versions

  free_enough : length index.versions - allowed ≤ length free_versions
  free_enough = omega (
    arith,
    length-filter_add (λ v. contains v.id (protected_ids index)) index.versions,
    marked_bound (protected_ids index) index.versions unique,
  )

  -- Exactly the excess over the allowance is pruned.
  pub length-collect_prunable_versions :
      length (collect_prunable_versions index keep_versions) ≡ length index.versions - allowed
  length-collect_prunable_versions =
      ap length (collect_prunable_versions-eq-take index keep_versions)
      ∙ length-take (length index.versions - allowed) free_versions
      ∙ omega (arith, free_enough)

  -- After retention an index with distinct identifiers lists at most `keep_versions` versions and
  -- one more for each protected identifier.
  pub length-retain_unpruned :
      length (retain_unpruned (collect_prunable_versions index keep_versions) index.versions)
      ≤ allowed
  unfolding retain_unpruned
  length-retain_unpruned =
      let pruned = collect_prunable_versions index keep_versions in
      let marks : length pruned ≤ marked (ids pruned) index.versions =
        subst (λ l. length l ≤ marked (ids pruned) index.versions)
          (sym (collect_prunable_versions-eq-take index keep_versions))
          (length-take_marked _ (λ v. contains v.id (ids pruned)) _ index.versions
            (subst (λ l. All (λ v. contains v.id (ids pruned) ≡ true) l)
              (collect_prunable_versions-eq-take index keep_versions) (All-contains pruned))) in
      omega (
        arith,
        marks,
        length-collect_prunable_versions,
        length-filter_add (λ v. contains v.id (ids pruned)) index.versions,
      )

-- If at least one version is to be kept, the last version of an index with distinct identifiers is
-- never pruned.
pub newest_is_retained :
    (index : VersionIndex) (keep_versions : ℕ) (older : List VersionInfo) (v : VersionInfo)
    → index.versions ≡ older ++ v ∷ []
    → IsUnique index.versions
    → 1 ≤ keep_versions
    → In v (retain_unpruned (collect_prunable_versions index keep_versions) index.versions)
unfolding retain_unpruned
newest_is_retained index keep_versions older v shape unique h =
    In-filter _ v index.versions (subst (λ l. In v l) (sym shape) (In-append_right v older))
      (elim (Bool-cases (contains v.id (ids pruned))) [
        | inr f ↦ rw f
        | inl t ↦
            let (w, in_pruned, e) = contains-ids v.id pruned t in
            absurd (last_is_new older v w distinct (in_older w in_pruned) e)
      ])
  where
    pruned : List VersionInfo
    pruned = collect_prunable_versions index keep_versions

    distinct : IsUnique (older ++ v ∷ [])
    distinct = subst IsUnique shape unique

    free : VersionInfo → Bool
    free w = not (contains w.id (protected_ids index))

    count : length index.versions ≡ suc (length older)
    count = ap length shape ∙ length-append older (v ∷ []) ∙ omega arith

    few :
        length index.versions - (keep_versions + length (protected_ids index))
        ≤ length (filter free older)
    few = omega (
      arith,
      count,
      length-filter_add (λ w. contains w.id (protected_ids index)) older,
      marked_bound (protected_ids index) older (IsUnique-prefix older (v ∷ []) distinct),
    )

    split : filter free index.versions ≡ filter free older ++ filter free (v ∷ [])
    split = ap (filter free) shape ∙ filter-append free older (v ∷ [])

    cut :
        pruned
        ≡ take
            (length index.versions - (keep_versions + length (protected_ids index)))
            (filter free older)
    cut =
        collect_prunable_versions-eq-take index keep_versions
        ∙ ap (take (length index.versions - (keep_versions + length (protected_ids index)))) split
        ∙ take-append_short _ (filter free older) _ few

    in_older : (w : VersionInfo) → In w pruned → In w older
    in_older w m = In-of-filter free w older (In-take _ w _ (subst (λ l. In w l) cut m))
