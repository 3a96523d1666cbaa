-- ===== src/Retention/Partition.antt =====
-- On `partition` of crates/core/src/backup/retention/policy.rs.
use backup_sync.Prelude.{
  ℕ, zero, suc, ◌+◌, ◌-◌, ◌≤◌, ◌≡◌, refl, sym, ap, ◌∙◌, true, false, Option, List, [], ◌∷◌, ◌++◌,
  ◌==◌, leb, min, arith, if◌then◌else◌, Str, str_eq, length, take, drop, length-drop,
  take-append-drop, In, inl, inr, ok, Bool-cases,
}
use mathlib.Core.Path.{subst}
use backup_sync.Prelude.Int.{ℤ, int_le}
use backup_sync.Retention.{key, insert_by_key, sort_by_key, partition}

-- How often a path stands in a list.
abbrev pub occurrences : Str → List Str → ℕ
occurrences path [] = 0
occurrences path (x ∷ xs) = (if str_eq x path then 1 else 0) + occurrences path xs

int_le_trans : (a b c : ℤ) → int_le a b ≡ true → int_le b c ≡ true → int_le a c ≡ true
int_le_trans a b c h k = ground (arith, h, k)

int_le_total : (a b : ℤ) → int_le a b ≡ false → int_le b a ≡ true
int_le_total a b h = ground (arith, h)

In-take : (n : ℕ) (p : Str) (xs : List Str) → In p (take n xs) → In p xs
In-take zero p xs h = absurd h
In-take (suc n) p [] h = absurd h
In-take (suc n) p (x ∷ xs) (inl e) = inl e
In-take (suc n) p (x ∷ xs) (inr h) = inr (In-take n p xs h)

In-drop : (n : ℕ) (p : Str) (xs : List Str) → In p (drop n xs) → In p xs
In-drop zero p xs h = h
In-drop (suc n) p [] h = absurd h
In-drop (suc n) p (x ∷ xs) h = inr (In-drop n p xs h)

module _ (parse_timestamp : Str → Option ℤ) where
  abbrev pub NotAfter : Str → Str → Type 0
  NotAfter p q = int_le (key parse_timestamp p) (key parse_timestamp q) ≡ true

  abbrev IsAscending : List Str → Type 0
  IsAscending [] = Unit
  IsAscending (x ∷ xs) = ((q : Str) → In q xs → NotAfter x q) × IsAscending xs

  occurrences-insert_by_key :
      (path x : Str) (xs : List Str)
      → occurrences path (insert_by_key parse_timestamp x xs) ≡ occurrences path (x ∷ xs)
  unfolding insert_by_key
  occurrences-insert_by_key path x [] = refl
  occurrences-insert_by_key path x (y ∷ xs) =
      elim (Bool-cases (int_le (key parse_timestamp x) (key parse_timestamp y))) [
        | inl first ↦ rw first refl
        | inr later ↦ rw later (omega (arith, occurrences-insert_by_key path x xs))
      ]

  occurrences-sort_by_key :
      (path : Str) (xs : List Str)
      → occurrences path (sort_by_key parse_timestamp xs) ≡ occurrences path xs
  unfolding sort_by_key
  occurrences-sort_by_key path [] = refl
  occurrences-sort_by_key path (x ∷ xs) = omega (
    arith,
    occurrences-insert_by_key path x (sort_by_key parse_timestamp xs),
    occurrences-sort_by_key path xs,
  )

  length-insert_by_key :
      (x : Str) (xs : List Str) → length (insert_by_key parse_timestamp x xs) ≡ suc (length xs)
  unfolding insert_by_key
  length-insert_by_key x [] = refl
  length-insert_by_key x (y ∷ xs) =
      elim (Bool-cases (int_le (key parse_timestamp x) (key parse_timestamp y))) [
        | inl first ↦ rw first refl
        | inr later ↦ rw later (ap suc (length-insert_by_key x xs))
      ]

  length-sort_by_key : (xs : List Str) → length (sort_by_key parse_timestamp xs) ≡ length xs
  unfolding sort_by_key
  length-sort_by_key [] = refl
  length-sort_by_key (x ∷ xs) =
      length-insert_by_key x (sort_by_key parse_timestamp xs) ∙ ap suc (length-sort_by_key xs)

  In-insert_by_key :
      (q x : Str) (xs : List Str) → In q (insert_by_key parse_timestamp x xs) → In q (x ∷ xs)
  unfolding insert_by_key
  In-insert_by_key q x [] h = h
  In-insert_by_key q x (y ∷ xs) h =
      elim (Bool-cases (int_le (key parse_timestamp x) (key parse_timestamp y))) [
        | inl first ↦ rw first at h
        | inr later ↦ elim (rw later at h) [
          | inl e ↦ inr (inl e)
          | inr rest ↦ elim (In-insert_by_key q x xs rest) [ inl e ↦ inl e | inr r ↦ inr (inr r) ]
        ]
      ]

  insert_by_key-IsAscending :
      (x : Str) (xs : List Str) → IsAscending xs → IsAscending (insert_by_key parse_timestamp x xs)
  unfolding insert_by_key
  insert_by_key-IsAscending x [] a = (λ q h. absurd h, tt)
  insert_by_key-IsAscending x (y ∷ xs) (low, rest) =
      elim (Bool-cases (int_le (key parse_timestamp x) (key parse_timestamp y))) [
        | inl first ↦ rw first (
          λ q h. elim h [
            | inl e ↦ subst (λ t. NotAfter x t) (sym e) first
            | inr r ↦
                int_le_trans (key parse_timestamp x) (key parse_timestamp y) (key parse_timestamp q)
                  first (low q r)
          ],
          (low, rest),
        )
        | inr later ↦ rw later (
          λ q h. elim (In-insert_by_key q x xs h) [
            | inl e ↦
                subst (λ t. NotAfter y t) (sym e)
                  (int_le_total (key parse_timestamp x) (key parse_timestamp y) later)
            | inr r ↦ low q r
          ],
          insert_by_key-IsAscending x xs rest,
        )
      ]

  sort_by_key-IsAscending : (xs : List Str) → IsAscending (sort_by_key parse_timestamp xs)
  unfolding sort_by_key
  sort_by_key-IsAscending [] = tt
  sort_by_key-IsAscending (x ∷ xs) =
      insert_by_key-IsAscending x (sort_by_key parse_timestamp xs) (sort_by_key-IsAscending xs)

  before_after :
      (n : ℕ) (xs : List Str) (p q : Str)
      → IsAscending xs
      → In p (take n xs)
      → In q (drop n xs)
      → NotAfter p q
  before_after zero xs p q a h k = absurd h
  before_after (suc n) [] p q a h k = absurd h
  before_after (suc n) (x ∷ xs) p q (low, rest) (inl e) k =
      subst (λ t. NotAfter t q) (sym e) (low q (In-drop n q xs k))
  before_after (suc n) (x ∷ xs) p q (low, rest) (inr h) k = before_after n xs p q rest h k

  -- What a partition of some copies promises.
  pub record IsPartition (max : ℕ) (existing pruned retained : List Str) : Type 0 where
    pub size : length retained ≡ min max (length existing)
    pub same : (path : Str) → occurrences path (pruned ++ retained) ≡ occurrences path existing
    pub older : (p q : Str) → In p pruned → In q retained → NotAfter p q

  -- Where at least one copy may be kept, the partition succeeds: as many copies are kept as may be,
  -- each copy is kept or pruned exactly once, and no pruned copy is later than a kept one.
  pub partition-IsPartition :
      (max : ℕ) (existing : List Str)
      → 1 ≤ max
      → (pruned : List Str) × (retained : List Str) × (partition parse_timestamp max existing
          ≡ ok (pruned, retained))
        × IsPartition max existing pruned retained
  unfolding partition
  partition-IsPartition max existing some_kept =
      let positive : (max == 0) ≡ false = ground (arith, some_kept) in
      elim (Bool-cases (leb (length existing) max)) [
        | inl few ↦ (
          [],
          existing,
          rw (positive, few) refl,
          record { size = ground (arith, few); same = λ path. refl; older = λ p q h k. absurd h },
        )
        | inr many ↦
            let sorted = sort_by_key parse_timestamp existing in
            let n = length sorted - max in
            (
              take n sorted,
              drop n sorted,
              rw (positive, many) refl,
              record {
                size = ground (arith, many, length-drop n sorted, length-sort_by_key existing);
                same = λ path.
                    ap (occurrences path) (take-append-drop n sorted)
                    ∙ occurrences-sort_by_key path existing;
                older = λ p q h k. before_after n sorted p q (sort_by_key-IsAscending existing) h k;
              },
            )
      ]
