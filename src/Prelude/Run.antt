-- ===== src/Prelude/Run.antt =====
-- Operations on a state that may fail. What was written before a failure stays written, so the state
-- comes back beside the error too.
use mathlib.Core.Path.{◌≡◌, refl, sym, subst}
use native.Mathlib.Omega.{arith}
use backup_sync.Prelude.Results.{Result, ok, err}

abbrev pub Run {ℓ κ μ} : Type ℓ → Type κ → Type μ → Type (ℓ ⊔ κ ⊔ μ)
Run S E A = S → Result E A × S

module _ {ℓ κ} {S : Type ℓ} {E : Type κ} where
  abbrev pub pure {μ} : {A : Type μ} → A → Run S E A
  pure a s = (ok a, s)

  abbrev pub lift {μ} : {A : Type μ} → Result E A → Run S E A
  lift r s = (r, s)

  abbrev pub gets {μ} : {A : Type μ} → (S → Result E A) → Run S E A
  gets f s = (f s, s)

  abbrev pub proceed {μ ν} : {A : Type μ} {B : Type ν} → Result E A → (A → Run S E B) → Run S E B
  proceed (ok a) f s = f a s
  proceed (err e) f s = (err e, s)

  infixl 5 ◌>>=◌ ◌>>◌
  abbrev pub ◌>>=◌ {μ ν} : {A : Type μ} {B : Type ν} → Run S E A → (A → Run S E B) → Run S E B
  ◌>>=◌ m f s = proceed (m s).0 f (m s).1

  abbrev pub ◌>>◌ {ν} : {B : Type ν} → Run S E (Unit {0}) → Run S E B → Run S E B
  m >> k = m >>= λ _. k

  -- What holds of the state at the start, and of the result and the state at the end if the operation
  -- succeeds, or of the state if it fails.
  abbrev pub Outcome {μ ν} :
      {A : Type μ} → (A → S → Type ν) → (S → Type ν) → Result E A → S → Type ν
  Outcome Q F (ok a) s = Q a s
  Outcome Q F (err e) s = F s

  pub record Triple {μ ν} {A : Type μ} (P : S → Type ν) (m : Run S E A) (Q : A → S → Type ν)
      (F : S → Type ν) : Type (ℓ ⊔ κ ⊔ μ ⊔ ν) where
    pub run : (s : S) → P s → Outcome Q F (m s).0 (m s).1

  module _ {μ ν ξ} {A : Type μ} {B : Type ν} {Q : A → S → Type ξ} {R : B → S → Type ξ}
      {F : S → Type ξ} where
    proceed-Outcome :
        (r : Result E A) (f : A → Run S E B) (s : S)
        → Outcome Q F r s
        → ((a : A) → Triple (Q a) (f a) R F)
        → Outcome R F (proceed r f s).0 (proceed r f s).1
    proceed-Outcome (ok a) f s h k = (k a).run s h
    proceed-Outcome (err e) f s h k = h

    pub Triple-bind :
        {P : S → Type ξ} (m : Run S E A) (f : A → Run S E B)
        → Triple P m Q F
        → ((a : A) → Triple (Q a) (f a) R F)
        → Triple P (m >>= f) R F
    Triple-bind m f h k = record { run = λ s p. proceed-Outcome (m s).0 f (m s).1 (h.run s p) k }

-- In a chain the second part starts where the first one succeeded.
pub bind-Outcome :
    {S E A B : Type 0} (Q : A → S → Type 0) (R : B → S → Type 0) (F : S → Type 0) (m : Run S E A)
    (f : A → Run S E B) (s : S)
    → Outcome Q F (m s).0 (m s).1
    → ((a : A) (t : S) → Q a t → Outcome R F (f a t).0 (f a t).1)
    → Outcome R F ((m >>= f) s).0 ((m >>= f) s).1
bind-Outcome Q R F m f s h k =
    (Triple-bind {P = λ t. t ≡ s} m f
        (record { run = λ t e. subst (λ x. Outcome Q F (m x).0 (m x).1) (sym e) h })
        (λ a. record { run = k a })).run
      s refl

pub Outcome-map :
    {S E A : Type 0} (Q R : A → S → Type 0) (F : S → Type 0) (r : Result E A) (s : S)
    → ((a : A) → Q a s → R a s)
    → Outcome Q F r s
    → Outcome R F r s
Outcome-map Q R F (ok a) s f h = f a h
Outcome-map Q R F (err e) s f h = h

-- The operation succeeded.
abbrev pub Runs : {E A : Type 0} → Result E A → Type 0
Runs {A} r = (a : A) × (r ≡ ok a)

-- What holds of the result of an operation that succeeded.
pub Outcome-Runs :
    {S E A : Type 0} (Q : A → S → Type 0) (F : S → Type 0) (r : Result E A) (s : S)
    → Outcome Q F r s
    → Runs r
    → (a : A) × (r ≡ ok a) × Q a s
Outcome-Runs Q F (ok a) s h runs = (a, refl, h)
Outcome-Runs Q F (err e) s h runs = absurd (ground (arith, runs.1))

proceed-Runs :
    {S E A B : Type 0} (Q : A → S → Type 0) (F : S → Type 0) (f : A → Run S E B) (r : Result E A)
    (s : S)
    → Outcome Q F r s
    → Runs r
    → ((a : A) (t : S) → Q a t → Runs (f a t).0)
    → Runs (proceed r f s).0
proceed-Runs Q F f (ok a) s h r k = k a s h
proceed-Runs Q F f (err e) s h r k = absurd (ground (arith, r.1))

-- A chain succeeds if the first part does, and the second one wherever that ends.
pub bind-Runs :
    {S E A B : Type 0} (Q : A → S → Type 0) (F : S → Type 0) (m : Run S E A) (f : A → Run S E B)
    (s : S)
    → Outcome Q F (m s).0 (m s).1
    → Runs (m s).0
    → ((a : A) (t : S) → Q a t → Runs (f a t).0)
    → Runs ((m >>= f) s).0
bind-Runs Q F m f s h r k = proceed-Runs Q F f (m s).0 (m s).1 h r k

pub gets-Outcome :
    {S E A : Type 0} (Q : A → S → Type 0) (F : S → Type 0) (r : Result E A) (s : S)
    → ((a : A) → r ≡ ok a → Q a s)
    → F s
    → Outcome Q F r s
gets-Outcome Q F (ok a) s q f = q a refl
gets-Outcome Q F (err e) s q f = f

pub Triple-pure :
    {S E A : Type 0} (P : S → Type 0) (Q : A → S → Type 0) (F : S → Type 0) (a : A)
    → ((s : S) → P s → Q a s)
    → Triple {E = E} P (pure a) Q F
Triple-pure P Q F a h = record { run = h }

pub Triple-gets :
    {S E A : Type 0} (P F : S → Type 0) (f : S → Result E A)
    → ((s : S) → P s → F s)
    → Triple P (gets f) (λ a s. P s × (f s ≡ ok a)) F
Triple-gets P F f weaken = record {
  run = λ s p. gets-Outcome (λ a t. P t × (f t ≡ ok a)) F (f s) s (λ a e. (p, e)) (weaken s p);
}
