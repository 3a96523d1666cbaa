-- ===== src/Versioned/Scrub/Selection.antt =====
-- What `select_hashes_for_mode` returns, in every mode.
use native.Mathlib.Nat.{mod-lt, mod-eq_of_lt, mod-add-mod}
use mathlib.Core.Path.{subst}
use backup_sync.Prelude.{
  ℕ, zero, suc, ◌+◌, ◌*◌, ◌%◌, ◌<◌, ◌≤◌, ◌≡◌, refl, sym, ap, ◌∙◌, ◌≢◌, ◌⊎◌, inl, inr, arith, ◌==◌,
  Bool-cases, ==_iff, some, List, [], ◌∷◌, Str, length, get_elem?, min, ok,
}
use backup_sync.Versioned.Scrub.{
  ScrubMode, sampled, full, greatest_common_divisor, at_least_one, find_stride, walk,
  select_hashes_for_mode,
}
use backup_sync.Versioned.Scrub.Walk.{first_stride, walk_distinct}

-- No element stands at two places.
abbrev pub IsDistinct : List Str → Type 0
IsDistinct xs = (i j : ℕ) (a : Str) → i < j → get_elem? xs i ≡ some a → get_elem? xs j ≢ some a

-- Every element stands in the other list.
abbrev pub IsDrawnFrom : List Str → List Str → Type 0
IsDrawnFrom xs hashes =
    (i : ℕ) (a : Str) → get_elem? xs i ≡ some a → (j : ℕ) × (get_elem? hashes j ≡ some a)

get_elem?-some :
    {A : Type 0} (xs : List A) (i : ℕ) → i < length xs → (a : A) × (get_elem? xs i ≡ some a)
get_elem?-some [] i h = absurd (omega arith)
get_elem?-some (x ∷ xs) zero h = (x, refl)
get_elem?-some (x ∷ xs) (suc i) h = get_elem?-some xs i (omega arith)

get_elem?-lt : {A : Type 0} (xs : List A) (i : ℕ) (a : A) → get_elem? xs i ≡ some a → i < length xs
get_elem?-lt [] i a h = cc
get_elem?-lt (x ∷ xs) zero a h = omega arith
get_elem?-lt (x ∷ xs) (suc i) a h = omega (arith, get_elem?-lt xs i a h)

-- What a walk has taken: the hashes at the strided places.
record Walked (hashes : List Str) (step rounds idx : ℕ) (selected : List Str) : Type 0 where
  size : length selected ≡ rounds
  places :
      (i : ℕ)
      → i < rounds
      → get_elem? selected i ≡ get_elem? hashes ((idx + i * step) % length hashes)

walk-suc :
    (hashes : List Str) (step rounds idx : ℕ) (a : Str) (rest : List Str)
    → get_elem? hashes idx ≡ some a
    → walk hashes step rounds ((idx + step) % length hashes) ≡ ok rest
    → walk hashes step (suc rounds) idx ≡ ok (a ∷ rest)
unfolding walk
walk-suc hashes step rounds idx a rest here e = ground arith

walk-Walked :
    (hashes : List Str) (step rounds idx : ℕ)
    → idx < length hashes
    → (selected : List Str) × (walk hashes step rounds idx ≡ ok selected)
      × Walked hashes step rounds idx selected
unfolding walk
walk-Walked hashes step zero idx h =
    ([], refl, record { size = refl; places = λ i p. absurd (omega arith) })
walk-Walked hashes step (suc rounds) idx h =
    let (a, here) = get_elem?-some hashes idx h in
    let next = (idx + step) % length hashes in
    let (rest, e, w) = walk-Walked hashes step rounds next (mod-lt (idx + step) (omega arith)) in
    (
      a ∷ rest,
      walk-suc hashes step rounds idx a rest here e,
      record {
        size = ap suc w.size;
        places = elim [
          | zero ↦ λ p. sym (ap (get_elem? hashes) (first idx step h) ∙ here)
          | suc i ↦ λ p. w.places i (omega arith) ∙ ap (get_elem? hashes) (later idx step i)
        ];
      },
    )
  where
    first : (idx step : ℕ) → idx < length hashes → (idx + 0 * step) % length hashes ≡ idx
    first idx step h = mod-eq_of_lt (omega arith) ∙ omega arith

    later :
        (idx step i : ℕ)
        → ((idx + step) % length hashes + i * step) % length hashes
          ≡ (idx + suc i * step) % length hashes
    later idx step i =
        mod-add-mod (idx + step) (length hashes) (i * step)
        ∙ ap (λ t. t % length hashes) (grind arith)

-- How many hashes a selection has: a full scrub asks for no sample.
abbrev pub sample_size : List Str → ℕ → ScrubMode → ℕ
sample_size hashes sample_blobs full = 0
sample_size hashes sample_blobs sampled = min sample_blobs (length hashes)

pub record IsSample (hashes : List Str) (size : ℕ) (selected : List Str) : Type 0 where
  pub cardinality : length selected ≡ size
  pub distinct : IsDistinct selected
  pub drawn : IsDrawnFrom selected hashes

nothing-IsSample : (hashes : List Str) → IsSample hashes 0 []
nothing-IsSample hashes = record {
  cardinality = refl;
  distinct = λ i j a h p. cc;
  drawn = λ i a p. cc;
}

whole-IsSample : (hashes : List Str) → IsDistinct hashes → IsSample hashes (length hashes) hashes
whole-IsSample hashes d = record { cardinality = refl; distinct = d; drawn = λ i a p. (i, p) }

Walked-IsSample :
    (hashes : List Str) (step rounds idx : ℕ) (selected : List Str)
    → IsDistinct hashes
    → rounds ≤ length hashes
    → 0 < length hashes
    → greatest_common_divisor step (length hashes) ≡ 1
    → Walked hashes step rounds idx selected
    → IsSample hashes rounds selected
Walked-IsSample hashes step rounds idx selected d short pos coprime w = record {
  cardinality = w.size;
  distinct = λ i j a h p q.
      let high : j < rounds = subst (λ n. j < n) w.size (get_elem?-lt selected j a q) in
      same_place i j a h high (sym (w.places i (omega arith)) ∙ p) (sym (w.places j high) ∙ q);
  drawn = λ i a p.
      let high : i < rounds = subst (λ n. i < n) w.size (get_elem?-lt selected i a p) in
      ((idx + i * step) % length hashes, sym (w.places i high) ∙ p);
}
  where
    order : (m n : ℕ) → m ≢ n → (m < n) ⊎ (n < m)
    order m n ne = grind arith

    same_place :
        (i j : ℕ) (a : Str)
        → i < j
        → j < rounds
        → get_elem? hashes ((idx + i * step) % length hashes) ≡ some a
        → get_elem? hashes ((idx + j * step) % length hashes) ≡ some a
        → ⊥
    same_place i j a h high p q =
        elim (order _ _ (walk_distinct (length hashes) step idx i j coprime h (omega arith))) [
          | inl lt ↦ d _ _ a lt p q
          | inr gt ↦ d _ _ a gt q p
        ]

-- From a list of distinct hashes the selection succeeds: its loops end and no index is out of bounds.
-- In full mode it is empty, however many are asked for; in sampled mode it has as many hashes as asked
-- (at most all of them). Each is from the list, and none is there twice.
pub select_hashes_for_mode-IsSample :
    (hashes : List Str) (sample_blobs : ℕ) (mode : ScrubMode) (seed : ℕ)
    → IsDistinct hashes
    → (selected : List Str) × (select_hashes_for_mode hashes sample_blobs mode seed ≡ ok selected)
      × IsSample hashes (sample_size hashes sample_blobs mode) selected
unfolding select_hashes_for_mode
select_hashes_for_mode-IsSample hashes sample_blobs full seed d =
    ([], refl, nothing-IsSample hashes)
select_hashes_for_mode-IsSample [] sample_blobs sampled seed d =
    ([], refl, subst (λ n. IsSample [] n []) (omega arith) (nothing-IsSample []))
select_hashes_for_mode-IsSample (h ∷ hs) sample_blobs sampled seed d =
    elim (Bool-cases (min sample_blobs (length hashes) == length hashes)) [
      | inl t ↦ (
        hashes,
        rw t refl,
        subst (λ n. IsSample hashes n hashes) (sym ((==_iff _ _).0 t)) (whole-IsSample hashes d),
      )
      | inr f ↦
          let (step, found, coprime) = stride_found in
          let (selected, e, w) =
            walk-Walked hashes step (min sample_blobs (length hashes)) (seed % length hashes)
              (mod-lt seed (omega arith)) in
          (
            selected,
            rw f (ground (arith, found, e)),
            Walked-IsSample hashes step _ _ selected d (omega arith) (omega arith) coprime w,
          )
    ]
  where
    hashes : List Str
    hashes = h ∷ hs

    stride_found :
        (s : ℕ) × (find_stride (length hashes) (length hashes) (at_least_one (97 % length hashes))
          ≡ some s)
        × (greatest_common_divisor s (length hashes) ≡ 1)
    stride_found = first_stride (length hs)
