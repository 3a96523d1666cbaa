-- ===== src/Versioned/Baseline/Newest.antt =====
-- The version that `maybe_pin_large_deletion_baseline` (store.rs) takes for the newest.
use mathlib.Core.Path.{subst}
use mathlib.Core.Option.{some-injective}
use backup_sync.Prelude.{
  ◌+◌, ◌≤◌, In, sym, ◌≡◌, refl, true, false, if◌then◌else◌, some, List, [], ◌∷◌, ap, Str,
  str_eq_refl, inl, inr, Bool-cases, arith,
}
use backup_sync.Prelude.Int.{pos_part, neg_part}
use backup_sync.Map.{str_key}
use backup_sync.Versioned.Model.{VersionInfo}
use backup_sync.Versioned.Baseline.{is_listed, later_version, newest, baseline_of}

-- The first version was not created before the second.
abbrev pub Since : VersionInfo → VersionInfo → Type 0
Since a b =
    pos_part b.created_at_unix + neg_part a.created_at_unix
    ≤ pos_part a.created_at_unix + neg_part b.created_at_unix

pub Since-same : (a b : VersionInfo) → b ≡ a → Since a b
Since-same a b same = subst (Since a) (sym same) (omega arith)

pub newest-later :
    (best v : VersionInfo) (vs : List VersionInfo)
    → later_version best v ≡ true
    → newest best (v ∷ vs) ≡ newest best vs
unfolding newest
newest-later best v vs h = ap (λ b. newest (if b then best else v) vs) h

pub newest-not_later :
    (best v : VersionInfo) (vs : List VersionInfo)
    → later_version best v ≡ false
    → newest best (v ∷ vs) ≡ newest v vs
unfolding newest
newest-not_later best v vs h = ap (λ b. newest (if b then best else v) vs) h

pub newest-In :
    (best : VersionInfo) (versions : List VersionInfo) → In (newest best versions) (best ∷ versions)
unfolding newest
newest-In best [] = inl refl
newest-In best (v ∷ vs) = elim (Bool-cases (later_version best v)) [
  | inl later ↦
      subst (λ w. In w (best ∷ v ∷ vs)) (sym (newest-later best v vs later))
        (elim (newest-In best vs) [ inl same ↦ inl same | inr rest ↦ inr (inr rest) ])
  | inr not_later ↦
      subst (λ w. In w (best ∷ v ∷ vs)) (sym (newest-not_later best v vs not_later))
        (inr (newest-In v vs))
]

pub newest-listed :
    (best : VersionInfo) (versions : List VersionInfo)
    → is_listed (newest best versions).id (best ∷ versions) ≡ true
unfolding newest
newest-listed best [] = ground (arith, str_eq_refl best.id)
newest-listed best (v ∷ vs) = elim (Bool-cases (later_version best v)) [
  | inl later ↦ ground (arith, later, newest-listed best vs)
  | inr not_later ↦ ground (arith, not_later, newest-listed v vs)
]

-- The newest version is not older than any of them.
pub newest-IsNewest :
    (best : VersionInfo) (versions : List VersionInfo) (v : VersionInfo)
    → In v (best ∷ versions)
    → Since (newest best versions) v
unfolding newest
newest-IsNewest best [] v h = elim h [
  | inl same ↦ Since-same best v same
  | inr none_left ↦ absurd none_left
]
newest-IsNewest best (w ∷ ws) v h = elim (Bool-cases (later_version best w)) [
  | inl later ↦
      subst (λ x. Since x v) (sym (newest-later best w ws later))
        (elim h [
          | inl same ↦ newest-IsNewest best ws v (inl same)
          | inr others ↦ elim others [
            | inl same ↦
                let above = newest-IsNewest best ws best (inl refl) in
                let over : Since best w = ground (arith, later) in
                subst (Since (newest best ws)) (sym same) (omega (arith, above, over))
            | inr rest ↦ newest-IsNewest best ws v (inr rest)
          ]
        ])
  | inr not_later ↦
      subst (λ x. Since x v) (sym (newest-not_later best w ws not_later))
        (elim h [
          | inl same ↦
              let above = newest-IsNewest w ws w (inl refl) in
              let over : Since w best = ground (arith, not_later) in
              subst (Since (newest w ws)) (sym same) (omega (arith, above, over))
          | inr others ↦ newest-IsNewest w ws v others
        ])
]

pub baseline_of-listed :
    (versions : List VersionInfo) (id : Str)
    → baseline_of versions ≡ some id
    → is_listed id versions ≡ true
unfolding baseline_of
baseline_of-listed [] id p = cc
baseline_of-listed (v ∷ vs) id p =
    let it : (newest v vs).id ≡ id = ground arith in
    subst (λ t. is_listed t (v ∷ vs) ≡ true) it (newest-listed v vs)

-- A version of that identifier that is not older than any other.
pub record IsNewest (versions : List VersionInfo) (id : Str) : Type 0 where
  pub version : VersionInfo
  pub listed : In version versions
  pub is_it : version.id ≡ id
  pub since : (v : VersionInfo) → In v versions → Since version v

pub baseline_of-IsNewest :
    (versions : List VersionInfo) (id : Str) → baseline_of versions ≡ some id → IsNewest versions id
unfolding baseline_of
baseline_of-IsNewest [] id p = cc
baseline_of-IsNewest (v ∷ vs) id p = record {
  version = newest v vs;
  listed = newest-In v vs;
  is_it = some-injective (newest v vs).id id p;
  since = newest-IsNewest v vs;
}
