-- ===== src/Map.antt =====
-- `BTreeMap`, and a directory of files by name: key-value pairs in the order of the keys.
pub mod Sorted
use mathlib.Core.Path.{ap₂}
use backup_sync.Prelude.{
  ◌≡◌, refl, sym, ◌↔◌, ◌⊎◌, inl, inr, Bool, true, false, ◌||◌, ◌&&◌, ap, Option, none, some, List,
  [], ◌∷◌, arith, if◌then◌else◌, In, Str, str_eq, str_lt, str_eq_iff, Bool-cases,
}

-- A type of keys: its equality test, and its order.
pub record Key (K : Type 0) : Type 0 where
  pub beq : K → K → Bool
  pub beq_iff : (a b : K) → (beq a b ≡ true) ↔ (a ≡ b)
  pub less : K → K → Bool

instance abbrev pub str_key : Key Str
str_key = record { beq = str_eq; beq_iff = str_eq_iff; less = str_lt }

abbrev pub Map : Type 0 → Type 0 → Type 0
Map K V = List (K × V)

module _ {K V : Type 0} ⦃key : Key K⦄ where
  unfoldable pub get : K → Map K V → Option V
  get k [] = none
  get k ((j, v) ∷ m) = if key.beq j k then some v else get k m

  unfoldable pub contains_key : K → Map K V → Bool
  contains_key k [] = false
  contains_key k ((j, v) ∷ m) = key.beq j k || contains_key k m

  unfoldable pub insert : K → V → Map K V → Map K V
  insert k v [] = (k, v) ∷ []
  insert k v ((j, w) ∷ m) =
      if key.beq j k
      then (k, v) ∷ m
      else if key.less k j
      then (k, v) ∷ (j, w) ∷ m
      else (j, w) ∷ insert k v m

  unfoldable pub remove : K → Map K V → Map K V
  remove k [] = []
  remove k ((j, v) ∷ m) = let rest = remove k m in if key.beq j k then rest else (j, v) ∷ rest

  pub get-insert :
      (k j : K) (v : V) (m : Map K V)
      → get j (insert k v m) ≡ (if key.beq k j then some v else get j m)
  unfolding get insert
  get-insert k j v [] = refl
  get-insert k j v ((i, w) ∷ m) =
      ground (arith, key.beq_iff k j, key.beq_iff i k, key.beq_iff i j, get-insert k j v m)

  pub get-remove :
      (k j : K) (m : Map K V) → get j (remove k m) ≡ (if key.beq k j then none else get j m)
  unfolding get remove
  get-remove k j [] = ground arith
  get-remove k j ((i, v) ∷ m) =
      ground (arith, key.beq_iff k j, key.beq_iff i k, key.beq_iff i j, get-remove k j m)

  pub contains_key-insert :
      (k j : K) (v : V) (m : Map K V)
      → contains_key j (insert k v m) ≡ (key.beq k j || contains_key j m)
  unfolding contains_key insert
  contains_key-insert k j v [] = refl
  contains_key-insert k j v ((i, w) ∷ m) =
      ground (arith, key.beq_iff k j, key.beq_iff i k, key.beq_iff i j, contains_key-insert k j v m)

  -- A binding that is found stands in the list that iteration goes through.
  pub get-In : (k : K) (v : V) (m : Map K V) → get k m ≡ some v → In (k, v) m
  unfolding get
  get-In k v [] h = cc
  get-In k v ((j, w) ∷ m) h = elim (Bool-cases (key.beq j k)) [
    | inl e ↦
        let same : w ≡ v = ground (arith, h, e) in
        inl (ap₂ (λ a b. (a, b)) (sym ((key.beq_iff j k).0 e)) (sym same))
    | inr e ↦ inr (get-In k v m (rw e at h))
  ]

  pub contains_key-get : (k : K) (v : V) (m : Map K V) → get k m ≡ some v → contains_key k m ≡ true
  unfolding get contains_key
  contains_key-get k v [] h = cc
  contains_key-get k v ((j, w) ∷ m) h = ground (arith, contains_key-get k v m)

  pub get-contains_key :
      (k : K) (m : Map K V) → contains_key k m ≡ true → (v : V) × (get k m ≡ some v)
  unfolding get contains_key
  get-contains_key k [] h = cc
  get-contains_key k ((j, w) ∷ m) h = elim (Bool-cases (key.beq j k)) [
    | inl same ↦ (w, rw same)
    | inr other ↦ rw other (get-contains_key k m (ground (arith, h, other)))
  ]

  pub In-insert :
      (k : K) (v : V) (m : Map K V) (p : K × V) → In p (insert k v m) → (p ≡ (k, v)) ⊎ In p m
  unfolding insert
  In-insert k v [] p (inl e) = inl e
  In-insert k v [] p (inr h) = absurd h
  In-insert k v ((i, w) ∷ m) p h = elim (Bool-cases (key.beq i k)) [
    | inl same ↦ elim (rw same at h) [ inl e ↦ inl e | inr r ↦ inr (inr r) ]
    | inr other ↦ elim (Bool-cases (key.less k i)) [
      | inl less ↦ elim (rw (other, less) at h) [ inl e ↦ inl e | inr r ↦ inr r ]
      | inr more ↦ elim (rw (other, more) at h) [
        | inl e ↦ inr (inl e)
        | inr r ↦ elim (In-insert k v m p r) [ inl e ↦ inl e | inr q ↦ inr (inr q) ]
      ]
    ]
  ]

  pub In-remove : (k : K) (m : Map K V) (p : K × V) → In p (remove k m) → In p m
  unfolding remove
  In-remove k [] p h = absurd h
  In-remove k ((i, w) ∷ m) p h = elim (Bool-cases (key.beq i k)) [
    | inl same ↦ inr (In-remove k m p (rw same at h))
    | inr other ↦ elim (rw other at h) [ inl e ↦ inl e | inr r ↦ inr (In-remove k m p r) ]
  ]

-- Keys of two parts, such as a directory and a name.
pub pair_beq_iff : (a b : Str × Str) → ((str_eq a.0 b.0 && str_eq a.1 b.1) ≡ true) ↔ (a ≡ b)
pair_beq_iff (a, b) (c, d) = (
  λ h. ap₂ (λ x y. (x, y)) ((str_eq_iff a c).0 (ground arith)) ((str_eq_iff b d).0 (ground arith)),
  λ e. ground (
    arith,
    (str_eq_iff a c).1 (ap (λ (t : Str × Str). t.0) e),
    (str_eq_iff b d).1 (ap (λ (t : Str × Str). t.1) e),
  ),
)

instance abbrev pub pair_key : Key (Str × Str)
pair_key = record {
  beq = λ a b. str_eq a.0 b.0 && str_eq a.1 b.1;
  beq_iff = pair_beq_iff;
  less = λ a b. str_lt a.0 b.0 || (str_eq a.0 b.0 && str_lt a.1 b.1);
}
