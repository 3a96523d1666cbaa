-- ===== src/Versioned/Exec.antt =====
-- Operations on the disk that may fail. What was written before a failure stays written, so the
-- disk comes back beside the error too.
use backup_sync.Prelude.{◌≡◌, refl, Bool, true, false, Result, ok, err}
use backup_sync.Versioned.Disk.{Disk, StoreError}

abbrev pub Exec : Type 0 → Type 0
Exec A = Disk → Result StoreError A × Disk

abbrev pub pure : {A : Type 0} → A → Exec A
pure a d = (ok a, d)

abbrev pub lift : {A : Type 0} → Result StoreError A → Exec A
lift r d = (r, d)

abbrev pub gets : {A : Type 0} → (Disk → A) → Exec A
gets f d = (ok (f d), d)

-- An operation of the file system that either is refused or has its effect.
abbrev pub effect : Bool → StoreError → (Disk → Disk) → Exec (Unit {0})
effect refused e f d = elim refused [ true ↦ (err e, d) | false ↦ (ok tt, f d) ]

abbrev pub proceed :
    {A B : Type 0} → Result StoreError A → (A → Exec B) → Disk → Result StoreError B × Disk
proceed (ok a) f d = f a d
proceed (err e) f d = (err e, d)

infixl 5 ◌>>=◌ ◌>>◌
abbrev pub ◌>>=◌ : {A B : Type 0} → Exec A → (A → Exec B) → Exec B
◌>>=◌ m f d = let (r, d') = m d in proceed r f d'

abbrev pub ◌>>◌ : {B : Type 0} → Exec (Unit {0}) → Exec B → Exec B
m >> k = m >>= λ _. k

-- A result meets its condition; a failure meets its own.
abbrev pub Outcome :
    {A : Type 0} → (A → Disk → Type 0) → (Disk → Type 0) → Result StoreError A → Disk → Type 0
Outcome Q E (ok a) d = Q a d
Outcome Q E (err e) d = E d

-- From a disk that meets `P` the operation ends at one that meets `Q` of its result, or fails at
-- one that meets `E`.
pub record Hoare {A : Type 0} (P : Disk → Type 0) (m : Exec A) (Q : A → Disk → Type 0)
    (E : Disk → Type 0) : Type 0 where
  pub run : (d : Disk) → P d → Outcome Q E (m d).0 (m d).1

module _ {A B : Type 0} {Q : A → Disk → Type 0} {R : B → Disk → Type 0} {E : Disk → Type 0} where
  proceed-Outcome :
      (r : Result StoreError A) (f : A → Exec B) (d : Disk)
      → Outcome Q E r d
      → ((a : A) → Hoare (Q a) (f a) R E)
      → Outcome R E (proceed r f d).0 (proceed r f d).1
  proceed-Outcome (ok a) f d h k = (k a).run d h
  proceed-Outcome (err e) f d h k = h

  pub Hoare-bind :
      {P : Disk → Type 0} (m : Exec A) (f : A → Exec B)
      → Hoare P m Q E
      → ((a : A) → Hoare (Q a) (f a) R E)
      → Hoare P (m >>= f) R E
  Hoare-bind m f h k = record { run = λ d p. proceed-Outcome (m d).0 f (m d).1 (h.run d p) k }

pub Hoare-lift :
    {A : Type 0} (P E : Disk → Type 0) (r : Result StoreError A)
    → ((d : Disk) → P d → E d)
    → Hoare P (lift r) (λ a d. P d × (r ≡ ok a)) E
Hoare-lift P E (ok a) weaken = record { run = λ d p. (p, refl) }
Hoare-lift P E (err e) weaken = record { run = λ d p. weaken d p }

pub Hoare-pure :
    {A : Type 0} (P : Disk → Type 0) (Q : A → Disk → Type 0) (E : Disk → Type 0) (a : A)
    → ((d : Disk) → P d → Q a d)
    → Hoare P (pure a) Q E
Hoare-pure P Q E a h = record { run = h }

pub Hoare-effect :
    (P Q E : Disk → Type 0) (refused : Bool) (e : StoreError) (f : Disk → Disk)
    → ((d : Disk) → P d → Q (f d))
    → ((d : Disk) → P d → E d)
    → Hoare P (effect refused e f) (λ u. Q) E
Hoare-effect P Q E true e f h weaken = record { run = weaken }
Hoare-effect P Q E false e f h weaken = record { run = h }
