-- ===== src/Versioned/Scrub/Walk.antt =====
-- The strided walk of `select_hashes_for_mode` (scrub.rs).
use Prim.Native.Nat.{◌∣◌}
use native.Mathlib.Nat.{mod-lt, mod-eq_of_lt, dvd-mul_right, div-add-mod, le_of_dvd, mul-sub}
use mathlib.Core.Path.{subst}
use backup_sync.Prelude.{
  ℕ, zero, suc, ◌+◌, ◌-◌, ◌*◌, ◌/◌, ◌%◌, ◌<◌, ◌≤◌, ◌≡◌, refl, ◌∙◌, ◌≢◌, inl, inr, arith, ◌==◌,
  Bool-cases, ==_iff, false, some,
}
use backup_sync.Versioned.Scrub.{greatest_common_divisor, at_least_one, find_stride}
use backup_sync.Versioned.Scrub.Gcd.{dvd_of_coprime, gcd_of_neighbours}

-- A stride that is not coprime has a successor in range.
stride_in_range :
    (len step : ℕ) → step < len → (greatest_common_divisor step len == 1) ≡ false → suc step < len
stride_in_range len step high f = elim (Bool-cases (suc step == len)) [
  | inl t ↦
      let e : suc step ≡ len = (==_iff (suc step) len).0 t in
      let one : greatest_common_divisor step len ≡ 1 =
        subst (λ n. greatest_common_divisor step n ≡ 1) e (gcd_of_neighbours step) in
      absurd (ground (arith, one, f))
  | inr n ↦ ground (arith, n, high)
]

next_stride : (len step : ℕ) → suc step < len → at_least_one ((step + 1) % len) ≡ suc step
unfolding at_least_one
next_stride len step h =
    let e : (step + 1) % len ≡ suc step = mod-eq_of_lt (omega arith) ∙ omega arith in
    ground (arith, e)

-- The search for a stride ends at the latest at `len - 1`.
find_stride_total :
    (fuel len step : ℕ)
    → 1 ≤ step
    → step < len
    → len ≤ fuel + step
    → (s : ℕ) × (find_stride fuel len step ≡ some s) × (greatest_common_divisor s len ≡ 1)
unfolding find_stride
find_stride_total zero len step low high enough = absurd (omega arith)
find_stride_total (suc fuel) len step low high enough =
    elim (Bool-cases (greatest_common_divisor step len == 1)) [
      | inl t ↦ (step, rw t refl, (==_iff _ 1).0 t)
      | inr f ↦
          let more : suc step < len = stride_in_range len step high f in
          let next : at_least_one ((step + 1) % len) ≡ suc step = next_stride len step more in
          let (s, found, coprime) =
            find_stride_total fuel len (suc step) (omega arith) more (omega arith) in
          let round : find_stride (suc fuel) len step ≡ find_stride fuel len (suc step) =
            rw (f, next) in
          (s, round ∙ found, coprime)
    ]

-- Two places of the walk that coincide are a multiple of the length apart.
mod-sub : (n x y : ℕ) → x ≤ y → x % n ≡ y % n → n ∣ y - x
mod-sub n x y h e = subst (λ t. n ∣ t) apart (dvd-mul_right n (y / n - x / n))
  where
    apart : n * (y / n - x / n) ≡ y - x
    apart = mul-sub n (y / n) (x / n) ∙ omega (arith, div-add-mod x n, div-add-mod y n)

pub walk_distinct :
    (len step start i j : ℕ)
    → greatest_common_divisor step len ≡ 1
    → i < j
    → j < len
    → (start + i * step) % len ≢ (start + j * step) % len
walk_distinct len step start i j coprime h high e =
    let apart : len ∣ (start + j * step) - (start + i * step) =
      mod-sub len (start + i * step) (start + j * step) (grind arith) e in
    let product : (start + j * step) - (start + i * step) ≡ (j - i) * step = grind arith in
    let divides : len ∣ j - i =
      dvd_of_coprime len step (j - i) (omega arith) coprime (subst (λ t. len ∣ t) product apart) in
    let short : len ≤ j - i = le_of_dvd (omega arith) divides in omega arith

in_range :
    (m : ℕ)
    → (1 ≤ at_least_one (97 % suc (suc m))) × (at_least_one (97 % suc (suc m)) < suc (suc m))
unfolding at_least_one
in_range m = ground (arith, mod-lt 97 {m = suc (suc m)} (omega arith))

-- The search succeeds for every number of hashes, from the stride that the code begins with.
pub first_stride :
    (m : ℕ)
    → (s : ℕ) × (find_stride (suc m) (suc m) (at_least_one (97 % suc m)) ≡ some s)
      × (greatest_common_divisor s (suc m) ≡ 1)
unfolding find_stride greatest_common_divisor at_least_one
first_stride zero = (1, refl, refl)
first_stride (suc m) =
    find_stride_total (suc (suc m)) (suc (suc m)) (at_least_one (97 % suc (suc m))) (in_range m).0
      (in_range m).1 (omega arith)
