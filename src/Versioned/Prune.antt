-- ===== src/Versioned/Prune.antt =====
-- Retention: `collect_prunable_versions` and the `retain` of `backup_one_folder`, of
-- crates/core/src/backup/versioned/store.rs.
pub mod Marked
pub mod Retained
use mathlib.Core.List.{append-nil, append_assoc}
use mathlib.Core.Bool.{false≢true}
use backup_sync.Prelude.{
  ℕ, zero, suc, ◌+◌, ◌-◌, ◌≤◌, ◌<◌, ◌≡◌, refl, sym, ap, ◌⊎◌, inl, inr, Bool, true, false, not, ◌||◌,
  Option, none, some, List, [], ◌∷◌, ◌++◌, arith, leb, ltb, if◌then◌else◌, Bool-cases, Option-cases,
  Str, ◌∙◌, ltb→lt, ltb_false→le, str_eq, str_eq_iff, length, filter, any, take, In, map,
}
use backup_sync.Versioned.Model.{VersionInfo, VersionIndex}

-- `slice.contains`
unfoldable pub contains : Str → List Str → Bool
contains id ids = any (λ x. str_eq x id) ids

abbrev pub to_list : Option Str → List Str
to_list none = []
to_list (some id) = id ∷ []

-- `protected`: the pinned identifier, and the pending one unless it is there already.
unfoldable pub protected_ids : VersionIndex → List Str
unfolding contains
protected_ids index =
    let pinned = to_list index.safety_pinned_version_id in
    elim index.safety_pending_version_id [
      | none ↦ pinned
      | some pending ↦ if contains pending pinned then pinned else pinned ++ pending ∷ []
    ]

-- `position` of the first unprotected version, and `remove` there.
unfoldable pub remove_first :
    (VersionInfo → Bool) → List VersionInfo → Option (VersionInfo × List VersionInfo)
remove_first p [] = none
remove_first p (v ∷ vs) =
    let rest = remove_first p vs in
    if p v then some (v, vs) else elim rest [ none ↦ none | some (w, ws) ↦ some (w, v ∷ ws) ]

-- The `while` loop; `fuel` bounds its rounds, each of which removes a version.
unfoldable pub prune_loop :
    ℕ → List Str → ℕ → List VersionInfo → List VersionInfo → List VersionInfo
unfolding remove_first contains
prune_loop zero protected allowed remaining pruned = pruned
prune_loop (suc fuel) protected allowed remaining pruned =
    if ltb allowed (length remaining)
    then elim (remove_first (λ v. not (contains v.id protected)) remaining) [
      | none ↦ pruned
      | some (v, rest) ↦ prune_loop fuel protected allowed rest (pruned ++ v ∷ [])
    ]
    else pruned

unfoldable pub collect_prunable_versions : VersionIndex → ℕ → List VersionInfo
unfolding prune_loop protected_ids
collect_prunable_versions index keep_versions =
    let protected = protected_ids index in
    prune_loop (length index.versions) protected (keep_versions + length protected) index.versions
      []

-- `index.versions.retain(|version| !pruned_ids.contains(version.id))`
unfoldable pub retain_unpruned : List VersionInfo → List VersionInfo → List VersionInfo
unfolding contains
retain_unpruned pruned = filter (λ v. not (contains v.id (map (λ p. p.id) pruned)))

-- What the search leaves: no version passes the test, or the first that does is taken out.
abbrev Removed :
    (VersionInfo → Bool) → List VersionInfo → Option (VersionInfo × List VersionInfo) → Type 0
Removed p vs none = filter p vs ≡ []
Removed p vs (some (v, rest)) = (filter p vs ≡ v ∷ filter p rest) × (length vs ≡ suc (length rest))

remove_first-Removed :
    (p : VersionInfo → Bool) (vs : List VersionInfo) → Removed p vs (remove_first p vs)
unfolding remove_first
remove_first-Removed p [] = refl
remove_first-Removed p (v ∷ vs) = go (p v) refl (remove_first p vs) (remove_first-Removed p vs)
  where
    go :
        (b : Bool)
        → p v ≡ b
        → (o : Option (VersionInfo × List VersionInfo)) → Removed p vs o
        → Removed p
            (v ∷ vs)
            (if b then some (v, vs) else elim o [ none ↦ none | some (w, ws) ↦ some (w, v ∷ ws) ])
    go true e o r = (rw e, refl)
    go false e none r = rw e r
    go false e (some (w, ws)) r = (rw e r.0, ap suc r.1)

take_nil {ℓ} : {A : Type ℓ} (n : ℕ) → take {A = A} n [] ≡ []
take_nil zero = refl
take_nil (suc n) = refl

take_more {ℓ} :
    {A : Type ℓ} (allowed n : ℕ) (x : A) (xs : List A)
    → allowed < suc n
    → take (suc n - allowed) (x ∷ xs) ≡ x ∷ take (n - allowed) xs
take_more allowed n x xs h = let e : suc n - allowed ≡ suc (n - allowed) = omega arith in rw e

take_none {ℓ} :
    {A : Type ℓ} (allowed n : ℕ) (xs : List A) → n ≤ allowed → take (n - allowed) xs ≡ []
take_none allowed n xs h = let e : n - allowed ≡ 0 = omega arith in rw e

module _ (protected : List Str) (allowed : ℕ) where
  abbrev pub unprotected : VersionInfo → Bool
  unprotected v = not (contains v.id protected)

  abbrev excess : List VersionInfo → List VersionInfo
  excess vs = take (length vs - allowed) (filter unprotected vs)

  -- One round, from what the loop does on the versions that are left.
  round-eq-take :
      (fuel : ℕ) (remaining pruned : List VersionInfo)
      → allowed < length remaining
      → (o : Option (VersionInfo × List VersionInfo)) → Removed unprotected remaining o
      → ((rest more : List VersionInfo)
          → length remaining ≡ suc (length rest)
          → prune_loop fuel protected allowed rest more ≡ more ++ excess rest)
      → elim o [
        | none ↦ pruned
        | some (v, rest) ↦ prune_loop fuel protected allowed rest (pruned ++ v ∷ [])
      ]
        ≡ pruned ++ excess remaining
  round-eq-take fuel remaining pruned h none r ih = rw (r, take_nil) (sym (append-nil pruned))
  round-eq-take fuel remaining pruned h (some (v, rest)) r ih =
      let shift = take_more allowed (length rest) v (filter unprotected rest) (rw r.1 at h) in
      ih rest (pruned ++ v ∷ []) r.1
      ∙ append_assoc pruned (v ∷ []) (excess rest)
      ∙ ap (λ t. pruned ++ t) (sym (rw (r.0, r.1) shift))

  prune_loop-eq-take :
      (fuel : ℕ) (remaining pruned : List VersionInfo)
      → length remaining ≤ fuel
      → prune_loop fuel protected allowed remaining pruned ≡ pruned ++ excess remaining
  unfolding prune_loop
  prune_loop-eq-take zero [] pruned h = rw take_nil (sym (append-nil pruned))
  prune_loop-eq-take zero (v ∷ vs) pruned h = absurd (omega arith)
  prune_loop-eq-take (suc fuel) remaining pruned h =
      elim (Bool-cases (ltb allowed (length remaining))) [
        | inl more ↦ rw more (
            round-eq-take fuel remaining pruned (ltb→lt allowed (length remaining) more)
              (remove_first unprotected remaining) (remove_first-Removed unprotected remaining)
              (λ rest more e. prune_loop-eq-take fuel rest more (omega arith)))
        | inr done ↦
            rw
              (
                done,
                take_none allowed (length remaining) (filter unprotected remaining)
                    (ltb_false→le allowed (length remaining) done),
              )
              (sym (append-nil pruned))
      ]

-- What is pruned, in one equation: of the versions whose identifier is not protected, the first
-- ones in the index's order, as many as the index has versions above `keep_versions` and one for
-- each protected identifier (all of them, if there are fewer).
pub collect_prunable_versions-eq-take :
    (index : VersionIndex) (keep_versions : ℕ)
    → collect_prunable_versions index keep_versions
      ≡ take
          (length index.versions - (keep_versions + length (protected_ids index)))
          (filter (λ v. not (contains v.id (protected_ids index))) index.versions)
unfolding collect_prunable_versions
collect_prunable_versions-eq-take index keep_versions =
    prune_loop-eq-take (protected_ids index) (keep_versions + length (protected_ids index))
      (length index.versions) index.versions [] (omega arith)
