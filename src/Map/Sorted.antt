-- ===== src/Map/Sorted.antt =====
-- The order of the keys of a `BTreeMap<String, V>`.
use mathlib.Core.Path.{subst}
use backup_sync.Prelude.{
  ◌≡◌, refl, sym, ap, inl, inr, true, false, some, [], ◌∷◌, arith, In, Str, str_eq, str_lt,
  str_eq_iff, str_eq_refl, Bool-cases,
}
use backup_sync.Map.{Map, str_key, get, insert, remove}

str_lt_irrefl : (s : Str) → str_lt s s ≡ false
str_lt_irrefl [] = refl
str_lt_irrefl (a ∷ s) = ground (arith, str_lt_irrefl s)

str_lt_trans : (s t u : Str) → str_lt s t ≡ true → str_lt t u ≡ true → str_lt s u ≡ true
str_lt_trans [] [] u p q = cc
str_lt_trans [] (b ∷ t) [] p q = cc
str_lt_trans [] (b ∷ t) (c ∷ u) p q = refl
str_lt_trans (a ∷ s) [] u p q = cc
str_lt_trans (a ∷ s) (b ∷ t) [] p q = cc
str_lt_trans (a ∷ s) (b ∷ t) (c ∷ u) p q = ground (arith, str_lt_trans s t u)

str_lt_total : (s t : Str) → str_eq s t ≡ false → str_lt s t ≡ false → str_lt t s ≡ true
str_lt_total [] [] p q = cc
str_lt_total [] (b ∷ t) p q = cc
str_lt_total (a ∷ s) [] p q = refl
str_lt_total (a ∷ s) (b ∷ t) p q = ground (arith, str_lt_total s t)

pub lt→ne : (s t : Str) → str_lt s t ≡ true → str_eq t s ≡ false
lt→ne s t h = elim (Bool-cases (str_eq t s)) [
  | inl same ↦
      let clash : str_lt s s ≡ true = subst (λ u. str_lt s u ≡ true) ((str_eq_iff t s).0 same) h in
      absurd (ground (arith, clash, str_lt_irrefl s))
  | inr other ↦ other
]

module _ {V : Type 0} where
  -- Every key of the map is greater.
  abbrev pub IsBelow : Str → Map Str V → Type 0
  IsBelow k [] = Unit
  IsBelow k ((j, w) ∷ m) = (str_lt k j ≡ true) × IsBelow k m

  abbrev pub IsSorted : Map Str V → Type 0
  IsSorted [] = Unit
  IsSorted ((j, w) ∷ m) = IsBelow j m × IsSorted m

  IsBelow-trans : (k j : Str) (m : Map Str V) → str_lt k j ≡ true → IsBelow j m → IsBelow k m
  IsBelow-trans k j [] h b = tt
  IsBelow-trans k j ((i, w) ∷ m) h b = (str_lt_trans k j i h b.0, IsBelow-trans k j m h b.1)

  IsBelow-insert :
      (j k : Str) (v : V) (m : Map Str V)
      → str_lt j k ≡ true
      → IsBelow j m
      → IsBelow j (insert k v m)
  unfolding insert
  IsBelow-insert j k v [] h b = (h, tt)
  IsBelow-insert j k v ((i, w) ∷ m) h b = elim (Bool-cases (str_eq i k)) [
    | inl same ↦ rw same (h, b.1)
    | inr other ↦ elim (Bool-cases (str_lt k i)) [
      | inl less ↦ rw (other, less) (h, b)
      | inr more ↦ rw (other, more) (b.0, IsBelow-insert j k v m h b.1)
    ]
  ]

  pub insert-IsSorted : (k : Str) (v : V) (m : Map Str V) → IsSorted m → IsSorted (insert k v m)
  unfolding insert
  insert-IsSorted k v [] s = (tt, tt)
  insert-IsSorted k v ((i, w) ∷ m) s = elim (Bool-cases (str_eq i k)) [
    | inl same ↦
        let e : i ≡ k = (str_eq_iff i k).0 same in rw same (subst (λ t. IsBelow t m) e s.0, s.1)
    | inr other ↦ elim (Bool-cases (str_lt k i)) [
      | inl less ↦ rw (other, less) ((less, IsBelow-trans k i m less s.0), s)
      | inr more ↦
          let up : str_lt i k ≡ true =
            str_lt_total k i (ground (arith, other, str_eq_iff i k, str_eq_iff k i)) more in
          rw (other, more) (IsBelow-insert i k v m up s.0, insert-IsSorted k v m s.1)
    ]
  ]

  IsBelow-remove : (j k : Str) (m : Map Str V) → IsBelow j m → IsBelow j (remove k m)
  unfolding remove
  IsBelow-remove j k [] b = tt
  IsBelow-remove j k ((i, w) ∷ m) b = elim (Bool-cases (str_eq i k)) [
    | inl same ↦ rw same (IsBelow-remove j k m b.1)
    | inr other ↦ rw other (b.0, IsBelow-remove j k m b.1)
  ]

  pub remove-IsSorted : (k : Str) (m : Map Str V) → IsSorted m → IsSorted (remove k m)
  unfolding remove
  remove-IsSorted k [] s = tt
  remove-IsSorted k ((i, w) ∷ m) s = elim (Bool-cases (str_eq i k)) [
    | inl same ↦ rw same (remove-IsSorted k m s.1)
    | inr other ↦ rw other (IsBelow-remove i k m s.0, remove-IsSorted k m s.1)
  ]

  IsBelow-In : (j k : Str) (v : V) (m : Map Str V) → IsBelow j m → In (k, v) m → str_lt j k ≡ true
  IsBelow-In j k v [] b p = absurd p
  IsBelow-In j k v ((i, w) ∷ m) b (inl e) = subst (λ (t : Str × V). str_lt j t.0 ≡ true) (sym e) b.0
  IsBelow-In j k v ((i, w) ∷ m) b (inr p) = IsBelow-In j k v m b.1 p

  -- What iteration meets is what a lookup finds.
  pub In-get : (k : Str) (v : V) (m : Map Str V) → IsSorted m → In (k, v) m → get k m ≡ some v
  unfolding get
  In-get k v [] s p = absurd p
  In-get k v ((i, w) ∷ m) s (inl e) =
      rw (← ap (λ (t : Str × V). t.0) e, str_eq_refl k) (ap (λ (t : Str × V). some t.1) (sym e))
  In-get k v ((i, w) ∷ m) s (inr p) = elim (Bool-cases (str_eq i k)) [
    | inl same ↦
        let clash : str_lt k k ≡ true =
          subst (λ t. str_lt t k ≡ true) ((str_eq_iff i k).0 same) (IsBelow-In i k v m s.0 p) in
        absurd (ground (arith, clash, str_lt_irrefl k))
    | inr other ↦ rw other (In-get k v m s.1 p)
  ]
