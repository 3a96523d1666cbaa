-- ===== src/Versioned/Prune/Marked.antt =====
-- Versions whose identifier stands in a list, counted; for the retention of store.rs.
use mathlib.Core.Path.{subst}
use backup_sync.Prelude.{
  ℕ, zero, suc, ◌+◌, ◌≤◌, ◌≡◌, refl, sym, ap, ◌≢◌, inl, inr, Bool, true, false, not, List, [], ◌∷◌,
  ◌++◌, arith, Bool-cases, Str, str_eq, str_eq_iff, length, filter, take, In, All, map, str_eq_refl,
}
use backup_sync.Versioned.Model.{VersionInfo}
use backup_sync.Versioned.Prune.{contains}

-- No identifier stands twice.
abbrev pub IsUnique : List VersionInfo → Type 0
IsUnique [] = Unit
IsUnique (v ∷ vs) = (contains v.id (map (λ w. w.id) vs) ≡ false) × IsUnique vs

module _ {A : Type 0} where
  pub In-filter : (p : A → Bool) (a : A) (xs : List A) → In a xs → p a ≡ true → In a (filter p xs)
  In-filter p a [] m h = m
  In-filter p a (x ∷ xs) (inl e) h = rw (subst (λ t. p t ≡ true) e h) (inl e)
  In-filter p a (x ∷ xs) (inr m) h = elim (Bool-cases (p x)) [
    | inl t ↦ rw t (inr (In-filter p a xs m h))
    | inr f ↦ rw f (In-filter p a xs m h)
  ]

  pub In-filter_holds : (p : A → Bool) (a : A) (xs : List A) → In a (filter p xs) → p a ≡ true
  In-filter_holds p a [] m = absurd m
  In-filter_holds p a (x ∷ xs) m = elim (Bool-cases (p x)) [
    | inl t ↦ elim (rw t at m) [ inl e ↦ rw e t | inr m' ↦ In-filter_holds p a xs m' ]
    | inr f ↦ In-filter_holds p a xs (rw f at m)
  ]

  pub In-of-filter : (p : A → Bool) (a : A) (xs : List A) → In a (filter p xs) → In a xs
  In-of-filter p a [] m = m
  In-of-filter p a (x ∷ xs) m = elim (Bool-cases (p x)) [
    | inl t ↦ elim (rw t at m) [ inl e ↦ inl e | inr m' ↦ inr (In-of-filter p a xs m') ]
    | inr f ↦ inr (In-of-filter p a xs (rw f at m))
  ]

  pub In-take : (k : ℕ) (a : A) (xs : List A) → In a (take k xs) → In a xs
  In-take zero a xs m = absurd m
  In-take (suc k) a [] m = absurd m
  In-take (suc k) a (x ∷ xs) (inl e) = inl e
  In-take (suc k) a (x ∷ xs) (inr m) = inr (In-take k a xs m)

  pub length-filter_add :
      (p : A → Bool) (xs : List A)
      → length (filter p xs) + length (filter (λ x. not (p x)) xs) ≡ length xs
  length-filter_add p [] = omega arith
  length-filter_add p (x ∷ xs) = ground (arith, length-filter_add p xs)

abbrev pub ids : List VersionInfo → List Str
ids = map (λ v. v.id)

pub contains-ids :
    (id : Str) (vs : List VersionInfo)
    → contains id (ids vs) ≡ true
    → (w : VersionInfo) × In w vs × (w.id ≡ id)
unfolding contains
contains-ids id [] h = cc
contains-ids id (v ∷ vs) h = elim (Bool-cases (str_eq v.id id)) [
  | inl e ↦ (v, inl refl, (str_eq_iff v.id id).0 e)
  | inr f ↦ let (w, m, e) = contains-ids id vs (rw f at h) in (w, inr m, e)
]

-- How many of some versions have an identifier of a list.
abbrev pub marked : List Str → List VersionInfo → ℕ
marked names vs = length (filter (λ v. contains v.id names) vs)

pub marked_absent :
    (name : Str) (vs : List VersionInfo)
    → contains name (ids vs) ≡ false
    → marked (name ∷ []) vs ≡ 0
unfolding contains
marked_absent name [] h = refl
marked_absent name (v ∷ vs) h =
    ground (arith, str_eq_iff name v.id, str_eq_iff v.id name, marked_absent name vs)

pub contains_single : (a b : Str) → contains a (b ∷ []) ≡ true → b ≡ a
unfolding contains
contains_single a b h = (str_eq_iff b a).0 (ground arith)

pub marked_one : (name : Str) (vs : List VersionInfo) → IsUnique vs → marked (name ∷ []) vs ≤ 1
marked_one name [] u = omega arith
marked_one name (v ∷ vs) u = elim (Bool-cases (contains v.id (name ∷ []))) [
  | inl t ↦ rw t (
      omega (
        arith,
        marked_absent name vs
            (subst (λ i. contains i (ids vs) ≡ false) (sym (contains_single v.id name t)) u.0),
      ))
  | inr f ↦ rw f (marked_one name vs u.1)
]

pub marked_cons :
    (name : Str) (names : List Str) (vs : List VersionInfo)
    → marked (name ∷ names) vs ≤ marked (name ∷ []) vs + marked names vs
unfolding contains
marked_cons name names [] = omega arith
marked_cons name names (v ∷ vs) = ground (arith, marked_cons name names vs)

pub marked_none : (vs : List VersionInfo) → marked [] vs ≡ 0
unfolding contains
marked_none [] = refl
marked_none (v ∷ vs) = marked_none vs

pub marked_bound :
    (names : List Str) (vs : List VersionInfo) → IsUnique vs → marked names vs ≤ length names
marked_bound [] vs u = omega (arith, marked_none vs)
marked_bound (name ∷ names) vs u =
    omega (arith, marked_cons name names vs, marked_one name vs u, marked_bound names vs u)

-- Marked elements that a prefix of a filtered list shows are among all the marked ones.
pub length-take_marked :
    (p q : VersionInfo → Bool) (k : ℕ) (vs : List VersionInfo)
    → All (λ v. q v ≡ true) (take k (filter p vs))
    → length (take k (filter p vs)) ≤ length (filter q vs)
length-take_marked p q zero vs h = omega arith
length-take_marked p q (suc k) [] h = omega arith
length-take_marked p q (suc k) (v ∷ vs) h = elim (Bool-cases (p v)) [
  | inl t ↦
      let (marks, rest) =
        (let g : (q v ≡ true) × All (λ w. q w ≡ true) (take k (filter p vs)) = rw t at h in g) in
      rw (t, marks) (omega (arith, length-take_marked p q k vs rest))
  | inr f ↦
      let short : length (take (suc k) (filter p vs)) ≤ length (filter q vs) =
        length-take_marked p q (suc k) vs (rw f at h) in
      elim (Bool-cases (q v)) [ inl m ↦ rw (f, m) (omega (arith, short)) | inr m ↦ rw (f, m) short ]
]

pub All-contains-In :
    (names : List Str) (vs : List VersionInfo)
    → ((v : VersionInfo) → In v vs → contains v.id names ≡ true)
    → All (λ v. contains v.id names ≡ true) vs
All-contains-In names [] h = tt
All-contains-In names (v ∷ vs) h = (h v (inl refl), All-contains-In names vs (λ w m. h w (inr m)))

pub In-contains :
    (v : VersionInfo) (vs : List VersionInfo) → In v vs → contains v.id (ids vs) ≡ true
unfolding contains
In-contains v [] m = absurd m
In-contains v (w ∷ vs) (inl e) = rw (← e, str_eq_refl v.id) refl
In-contains v (w ∷ vs) (inr m) = ground (arith, In-contains v vs m)

pub All-contains : (vs : List VersionInfo) → All (λ v. contains v.id (ids vs) ≡ true) vs
All-contains vs = All-contains-In (ids vs) vs (λ v m. In-contains v vs m)

pub filter-append :
    (p : VersionInfo → Bool) (xs ys : List VersionInfo)
    → filter p (xs ++ ys) ≡ filter p xs ++ filter p ys
filter-append p [] ys = refl
filter-append p (x ∷ xs) ys = ground (arith, filter-append p xs ys)

pub take-append_short {ℓ} :
    {A : Type ℓ} (k : ℕ) (xs ys : List A) → k ≤ length xs → take k (xs ++ ys) ≡ take k xs
take-append_short zero xs ys h = refl
take-append_short (suc k) [] ys h = absurd (omega arith)
take-append_short (suc k) (x ∷ xs) ys h = ap (λ t. x ∷ t) (take-append_short k xs ys (omega arith))

pub In-append_right : (v : VersionInfo) (xs : List VersionInfo) → In v (xs ++ v ∷ [])
In-append_right v [] = inl refl
In-append_right v (x ∷ xs) = inr (In-append_right v xs)

pub IsUnique-prefix : (xs ys : List VersionInfo) → IsUnique (xs ++ ys) → IsUnique xs
unfolding contains
IsUnique-prefix [] ys u = tt
IsUnique-prefix (x ∷ xs) ys u = (contains_prefix x.id xs ys u.0, IsUnique-prefix xs ys u.1)
  where
    contains_prefix :
        (id : Str) (us vs : List VersionInfo)
        → contains id (ids (us ++ vs)) ≡ false
        → contains id (ids us) ≡ false
    contains_prefix id [] vs h = refl
    contains_prefix id (u ∷ us) vs h = elim (Bool-cases (str_eq u.id id)) [
      | inl t ↦ cc (h, t)
      | inr f ↦ rw f (contains_prefix id us vs (rw f at h))
    ]

-- In a list without repetition the last version's identifier stands nowhere before it.
pub last_is_new :
    (older : List VersionInfo) (v w : VersionInfo)
    → IsUnique (older ++ v ∷ [])
    → In w older
    → w.id ≢ v.id
last_is_new [] v w u m e = absurd m
last_is_new (x ∷ older) v w u (inl p) e =
    let last : contains v.id (ids (older ++ v ∷ [])) ≡ true =
      In-contains v (older ++ v ∷ []) (In-append_right v older) in
    cc (last, u.0, e, ap (λ (t : VersionInfo). t.id) p)
last_is_new (x ∷ older) v w u (inr m) e = last_is_new older v w u.1 m e
