-- ===== src/Versioned/Compare/Overlap.antt =====
-- How many keys two maps share, counted from either side.
use mathlib.Core.Path.{subst}
use backup_sync.Prelude.{
  ℕ, ◌+◌, ◌≡◌, refl, sym, ◌∙◌, inl, inr, Bool, true, false, [], ◌∷◌, arith, if◌then◌else◌, Str,
  str_eq, str_eq_iff, length, Bool-cases,
}
use backup_sync.Map.{Map, str_key, contains_key}
use backup_sync.Map.Sorted.{IsSorted, IsBelow, lt→ne}
use backup_sync.Versioned.Model.{ManifestEntry}

abbrev Entries : Type 0
Entries = Map Str ManifestEntry

abbrev one : Bool → ℕ
one true = 1
one false = 0

-- How often a key stands in a map.
abbrev occurrences : Str → Entries → ℕ
occurrences k [] = 0
occurrences k ((j, _) ∷ m) = one (str_eq j k) + occurrences k m

-- The keys of the first map that the second has.
abbrev pub shared : Entries → Entries → ℕ
shared [] n = 0
shared ((k, _) ∷ m) n = one (contains_key k n) + shared m n

-- The keys of the first map that the second has not.
abbrev pub missing : Entries → Entries → ℕ
missing [] n = 0
missing ((k, _) ∷ m) n = (if contains_key k n then 0 else 1) + missing m n

abbrev pairs : Entries → Entries → ℕ
pairs [] n = 0
pairs ((k, _) ∷ m) n = occurrences k n + pairs m n

str_eq_sym : (s t : Str) → str_eq s t ≡ str_eq t s
str_eq_sym s t = ground (arith, str_eq_iff s t, str_eq_iff t s)

pairs_nil : (m : Entries) → pairs m [] ≡ 0
pairs_nil [] = refl
pairs_nil (x ∷ m) = omega (arith, pairs_nil m)

pairs_cons_right :
    (m : Entries) (k : Str) (e : ManifestEntry) (n : Entries)
    → pairs m ((k, e) ∷ n) ≡ occurrences k m + pairs m n
pairs_cons_right [] k e n = refl
pairs_cons_right ((j, d) ∷ m) k e n = rw (str_eq_sym k j) (omega (arith, pairs_cons_right m k e n))

pairs_comm : (m n : Entries) → pairs m n ≡ pairs n m
pairs_comm [] n = sym (pairs_nil n)
pairs_comm ((k, e) ∷ m) n = omega (arith, pairs_comm m n, pairs_cons_right n k e m)

above_absent :
    (k : Str) (m : Entries) → IsBelow k m → (contains_key k m ≡ false) × (occurrences k m ≡ 0)
unfolding contains_key
above_absent k [] b = (refl, refl)
above_absent k ((j, d) ∷ m) b = ground (arith, lt→ne k j b.0, above_absent k m b.1)

occurrences-eq : (k : Str) (m : Entries) → IsSorted m → occurrences k m ≡ one (contains_key k m)
unfolding contains_key
occurrences-eq k [] s = refl
occurrences-eq k ((j, d) ∷ m) s = elim (Bool-cases (str_eq j k)) [
  | inl same ↦
      let (_, none_left) =
        above_absent k m (subst (λ t. IsBelow t m) ((str_eq_iff j k).0 same) s.0) in
      rw same (omega (arith, none_left))
  | inr other ↦ rw other (omega (arith, occurrences-eq k m s.1))
]

pairs-eq-shared : (m n : Entries) → IsSorted n → pairs m n ≡ shared m n
pairs-eq-shared [] n s = refl
pairs-eq-shared ((k, e) ∷ m) n s = omega (arith, occurrences-eq k n s, pairs-eq-shared m n s)

-- Both maps count the same shared keys.
pub shared_comm : (m n : Entries) → IsSorted m → IsSorted n → shared m n ≡ shared n m
shared_comm m n p q = sym (pairs-eq-shared m n q) ∙ pairs_comm m n ∙ pairs-eq-shared n m p

pub shared_add_missing : (m n : Entries) → shared m n + missing m n ≡ length m
shared_add_missing [] n = refl
shared_add_missing ((k, e) ∷ m) n = ground (arith, shared_add_missing m n)
