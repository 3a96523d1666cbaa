-- ===== src/Versioned/Scrub/Gcd.antt =====
-- `greatest_common_divisor` of scrub.rs.
use Prim.Native.Nat.{◌∣◌}
use native.Mathlib.Nat.{
  dvd-mod_iff, dvd_antisymm, dvd_refl, dvd-zero, mul-add-mod_self_left, mod-eq_of_lt, mod-lt,
  div-add-mod, dvd-mul_left, mul-zero, one-dvd, dvd-add_iff_right,
}
use mathlib.Core.Path.{subst}
use backup_sync.Prelude.{
  ℕ, zero, suc, ◌+◌, ◌*◌, ◌/◌, ◌%◌, ◌<◌, ◌≡◌, refl, sym, ap, ◌∙◌, inl, inr, arith, ◌==◌, Bool-cases,
  ==_iff, true, false,
}
use backup_sync.Versioned.Scrub.{gcd_loop, greatest_common_divisor}

-- What a loop of Euclid's keeps: the divisors that both numbers have.
gcd_loop-greatest : (fuel a b d : ℕ) → d ∣ a → d ∣ b → d ∣ gcd_loop fuel a b
unfolding gcd_loop
gcd_loop-greatest zero a b d p q = p
gcd_loop-greatest (suc fuel) a b d p q = elim (Bool-cases (b == 0)) [
  | inl z ↦ rw z p
  | inr n ↦ rw n (gcd_loop-greatest fuel b (a % b) d q ((dvd-mod_iff d q).1 p))
]

gcd_loop-divides : (fuel a b : ℕ) → b < fuel → (gcd_loop fuel a b ∣ a) × (gcd_loop fuel a b ∣ b)
unfolding gcd_loop
gcd_loop-divides zero a b h = absurd (omega arith)
gcd_loop-divides (suc fuel) a b h = elim (Bool-cases (b == 0)) [
  | inl z ↦ rw z (dvd_refl a, subst (λ t. a ∣ t) (sym ((==_iff b 0).0 z)) (dvd-zero a))
  | inr n ↦
      let smaller : a % b < fuel = ground arith in
      let (left, right) = gcd_loop-divides fuel b (a % b) smaller in
      rw n ((dvd-mod_iff _ left).0 right, left)
]

-- A factor of both numbers is a factor of the result.
mul-mod_mul : (d a b : ℕ) → 0 < d → 0 < b → d * a % (d * b) ≡ d * (a % b)
mul-mod_mul d a b hd hb =
    ap (λ t. d * t % (d * b)) (sym (div-add-mod a b))
    ∙ ap (λ t. t % (d * b)) expand
    ∙ mul-add-mod_self_left (d * b) (a / b) (d * (a % b))
    ∙ mod-eq_of_lt (grind (arith, mod-lt a hb))
  where
    expand : d * (b * (a / b) + a % b) ≡ d * b * (a / b) + d * (a % b)
    expand = omega arith

product_pos : (a b : ℕ) → 0 < a → 0 < b → 0 < a * b
product_pos a b p q = grind arith

gcd_loop-mul : (fuel d a b : ℕ) → 0 < d → gcd_loop fuel (d * a) (d * b) ≡ d * gcd_loop fuel a b
unfolding gcd_loop
gcd_loop-mul zero d a b h = refl
gcd_loop-mul (suc fuel) d a b h = elim (Bool-cases (b == 0)) [
  | inl z ↦
      let e : b ≡ 0 = (==_iff b 0).0 z in
      let e' : (d * b == 0) ≡ true = (==_iff (d * b) 0).1 (rw e (mul-zero d)) in rw (e', z) refl
  | inr n ↦
      let pos : 0 < b = ground arith in
      let n' : (d * b == 0) ≡ false = ground (arith, product_pos d b h pos) in
      rw (n', n, mul-mod_mul d a b h pos) (gcd_loop-mul fuel d b (a % b) h)
]

-- The result is the greatest common divisor in the order of divisibility: it divides both
-- numbers, and whatever divides both divides it.
pub greatest_common_divisor_lem :
    (a b : ℕ)
    → (greatest_common_divisor a b ∣ a)
      × (greatest_common_divisor a b ∣ b)
      × ((d : ℕ) → d ∣ a → d ∣ b → d ∣ greatest_common_divisor a b)
unfolding greatest_common_divisor
greatest_common_divisor_lem a b =
    let (left, right) = gcd_loop-divides (suc b) a b (omega arith) in
    (left, right, λ d. gcd_loop-greatest (suc b) a b d)

-- A number that is coprime to a stride and divides a multiple of it divides the factor.
pub dvd_of_coprime :
    (n step d : ℕ) → 0 < d → greatest_common_divisor step n ≡ 1 → n ∣ d * step → n ∣ d
unfolding greatest_common_divisor
dvd_of_coprime n step d pos coprime h =
    subst (λ t. n ∣ t) (gcd_loop-mul (suc n) d step n pos ∙ ap (λ t. d * t) coprime ∙ omega arith)
      (gcd_loop-greatest (suc n) (d * step) (d * n) n h (dvd-mul_left n d))

-- Neighbours are coprime.
pub gcd_of_neighbours : (m : ℕ) → greatest_common_divisor m (suc m) ≡ 1
gcd_of_neighbours m =
    let (left, right, _) = greatest_common_divisor_lem m (suc m) in
    let up : m + 1 ≡ suc m = omega arith in
    dvd_antisymm
      ((dvd-add_iff_right (greatest_common_divisor m (suc m)) left).1
        (subst (λ t. greatest_common_divisor m (suc m) ∣ t) (sym up) right))
      (one-dvd (greatest_common_divisor m (suc m)))
