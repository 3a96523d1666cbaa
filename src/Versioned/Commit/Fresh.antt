-- ===== src/Versioned/Commit/Fresh.antt =====
-- The loop over version ids in `backup_one_folder` (store.rs).
use backup_sync.Prelude.{
  ℕ, zero, suc, ◌+◌, ◌≤◌, ◌<◌, ◌≡◌, refl, true, false, Option, some, [], ◌∷◌, ◌++◌, arith, Str,
  str_eq, str_eq_iff, length, length-append, show_u32, Bool-cases, inl, inr, ap,
}
use backup_sync.Map.{Map, contains_key, str_key}
use backup_sync.Versioned.Model.{Manifest}
use backup_sync.Versioned.Folder.{longest, fresh_from, fresh_version_id}

length-longest :
    (id : Str) (m : Map Str (Option Manifest)) → contains_key id m ≡ true → length id ≤ longest m
unfolding contains_key
length-longest id [] h = absurd (ground (arith, h))
length-longest id ((k, v) ∷ m) h = elim (Bool-cases (str_eq k id)) [
  | inl same ↦ let e = ap length ((str_eq_iff k id).0 same) in omega (arith, e)
  | inr other ↦ omega (arith, length-longest id m (ground (arith, other, h)))
]

fresh_from-found :
    (fuel : ℕ) (m : Map Str (Option Manifest)) (collision : ℕ) (id : Str)
    → longest m < fuel + length id
    → (fresh : Str) × ((fresh_from fuel m collision id ≡ some fresh)
        × (contains_key fresh m ≡ false))
unfolding fresh_from
fresh_from-found zero m collision id h = elim (Bool-cases (contains_key id m)) [
  | inl taken ↦ absurd (omega (arith, length-longest id m taken))
  | inr free ↦ rw free (id, (refl, free))
]
fresh_from-found (suc fuel) m collision id h = elim (Bool-cases (contains_key id m)) [
  | inr free ↦ rw free (id, (refl, free))
  | inl taken ↦ rw taken (
      fresh_from-found fuel m (collision + 1) (id ++ b'-' ∷ show_u32 (collision + 1))
        (omega (arith, length-append id (b'-' ∷ show_u32 (collision + 1)))))
]

-- The loop over colliding ids ends, whatever manifests there are, with an id that none of them has.
pub fresh_version_id-found :
    (m : Map Str (Option Manifest)) (stamp : Str)
    → (fresh : Str) × ((fresh_version_id m stamp ≡ some fresh) × (contains_key fresh m ≡ false))
unfolding fresh_version_id
fresh_version_id-found m stamp = fresh_from-found (suc (longest m)) m 0 stamp (omega arith)
