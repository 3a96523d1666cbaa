-- ===== src/Versioned/Validation.antt =====
-- crates/core/src/backup/versioned/validation.rs: identifiers loaded from an untrusted index.
use backup_sync.Prelude.{
  ℕ, ◌+◌, ◌≤◌, ◌≡◌, refl, ◌↔◌, ◌⊎◌, Bool, true, false, not, ◌&&◌, ◌||◌, Option, none, some, List,
  [], ◌∷◌, arith, ltb, leb, ◌==◌, Str, length, all, All, Result, ok, err, ◌>>◌, bail_if,
}
use mathlib.Core.Path.{subst}
use mathlib.Core.Option.{some-injective}
use backup_sync.Versioned.Model.{VersionInfo, VersionIndex}

-- Where the refused identifier stands.
pub data IndexError : Type 0 where
  bad_id : Str → IndexError
  bad_version_at : ℕ → IndexError
  bad_pinned bad_pending : IndexError

unfoldable pub is_ascii_alphanumeric : ℕ → Bool
is_ascii_alphanumeric b =
    (leb b'0' b && leb b b'9') || (leb b'A' b && leb b b'Z') || (leb b'a' b && leb b b'z')

unfoldable pub is_id_byte : ℕ → Bool
unfolding is_ascii_alphanumeric
is_id_byte b = is_ascii_alphanumeric b || b == b'-' || b == b'_'

abbrev pub is_empty : Str → Bool
is_empty [] = true
is_empty (_ ∷ _) = false

unfoldable pub validate_version_id : Str → Result IndexError (Unit {0})
unfolding is_id_byte
validate_version_id id =
    bail_if (is_empty id || ltb 255 (length id) || not (all is_id_byte id)) (bad_id id)

-- `with_context`: the error of the part is reported at its place.
abbrev pub in_context : IndexError → Result IndexError (Unit {0}) → Result IndexError (Unit {0})
in_context e (ok u) = ok u
in_context e (err _) = err e

-- The loop over `versions.iter().enumerate()`, from a position on.
unfoldable pub validate_versions : ℕ → List VersionInfo → Result IndexError (Unit {0})
validate_versions position [] = ok tt
validate_versions position (v ∷ vs) =
    in_context (bad_version_at position) (validate_version_id v.id)
    >> validate_versions (position + 1) vs

unfoldable pub validate_optional : IndexError → Option Str → Result IndexError (Unit {0})
validate_optional e none = ok tt
validate_optional e (some id) = in_context e (validate_version_id id)

unfoldable pub validate_version_index : VersionIndex → Result IndexError (Unit {0})
unfolding validate_versions validate_optional
validate_version_index index =
    validate_versions 0 index.versions
    >> validate_optional bad_pinned index.safety_pinned_version_id
    >> validate_optional bad_pending index.safety_pending_version_id

-- A letter or a digit of ASCII, `-` or `_`.
abbrev pub IsNameByte : ℕ → Type 0
IsNameByte b =
    ((48 ≤ b) × (b ≤ 57))
    ⊎ (((65 ≤ b) × (b ≤ 90)) ⊎ (((97 ≤ b) × (b ≤ 122)) ⊎ ((b ≡ 45) ⊎ (b ≡ 95))))

is_id_byte-iff-IsNameByte : (b : ℕ) → (is_id_byte b ≡ true) ↔ IsNameByte b
unfolding is_id_byte is_ascii_alphanumeric
is_id_byte-iff-IsNameByte b = ground arith

all_id_bytes_iff : (s : Str) → (all is_id_byte s ≡ true) ↔ All IsNameByte s
all_id_bytes_iff [] = (λ h. tt, λ h. refl)
all_id_bytes_iff (b ∷ s) =
    let here = is_id_byte-iff-IsNameByte b in
    let rest = all_id_bytes_iff s in
    (
      λ h. (here.0 (ground (arith, h)), rest.0 (ground (arith, h))),
      λ h. let first = here.1 h.0 in let others = rest.1 h.1 in ground (arith, first, others),
    )

-- An identifier that is safe as a file name: short, and of letters, digits, `-` and `_` alone.
pub record IsSafeId (id : Str) : Type 0 where
  pub not_empty : 1 ≤ length id
  pub short : length id ≤ 255
  pub bytes : All IsNameByte id

pub record IsSafeIndex (index : VersionIndex) : Type 0 where
  pub versions : All (λ v. IsSafeId v.id) index.versions
  pub pinned : (id : Str) → index.safety_pinned_version_id ≡ some id → IsSafeId id
  pub pending : (id : Str) → index.safety_pending_version_id ≡ some id → IsSafeId id

validate_version_id_sound : (id : Str) → validate_version_id id ≡ ok tt → IsSafeId id
unfolding validate_version_id
validate_version_id_sound [] h = cc
validate_version_id_sound (b ∷ id) h = record {
  not_empty = omega arith;
  short = ground (arith, h);
  bytes = (all_id_bytes_iff (b ∷ id)).0 (ground (arith, h));
}

validate_version_id_complete : (id : Str) → IsSafeId id → validate_version_id id ≡ ok tt
unfolding validate_version_id
validate_version_id_complete [] s = absurd (omega (arith, s.not_empty))
validate_version_id_complete (b ∷ id) s =
    let bytes = (all_id_bytes_iff (b ∷ id)).1 s.bytes in ground (arith, bytes, s.short)

validate_versions_sound :
    (n : ℕ) (vs : List VersionInfo) → validate_versions n vs ≡ ok tt → All (λ v. IsSafeId v.id) vs
unfolding validate_versions
validate_versions_sound n [] h = tt
validate_versions_sound n (v ∷ vs) h =
    let here : validate_version_id v.id ≡ ok tt = ground arith in
    (validate_version_id_sound v.id here, validate_versions_sound (n + 1) vs (rw here at h))

validate_versions_complete :
    (n : ℕ) (vs : List VersionInfo) → All (λ v. IsSafeId v.id) vs → validate_versions n vs ≡ ok tt
unfolding validate_versions
validate_versions_complete n [] s = refl
validate_versions_complete n (v ∷ vs) s =
    rw (validate_version_id_complete v.id s.0) (validate_versions_complete (n + 1) vs s.1)

validate_optional_iff :
    (e : IndexError) (o : Option Str)
    → (validate_optional e o ≡ ok tt) ↔ ((id : Str) → o ≡ some id → IsSafeId id)
unfolding validate_optional
validate_optional_iff e none = (λ _ id h. cc, λ _. refl)
validate_optional_iff e (some x) = (
  λ h id p. subst IsSafeId (some-injective x id p) (validate_version_id_sound x (ground arith)),
  λ s. rw (validate_version_id_complete x (s x refl)),
)

-- An index is accepted exactly when every identifier in it, the pinned and the pending one included,
-- has 1 to 255 bytes, each of them a letter or a digit of ASCII, `-` or `_`.
pub validate_version_index_iff :
    (index : VersionIndex) → (validate_version_index index ≡ ok tt) ↔ IsSafeIndex index
unfolding validate_version_index
validate_version_index_iff index = (
  λ h.
      let first : validate_versions 0 index.versions ≡ ok tt = ground arith in
      let second : validate_optional bad_pinned index.safety_pinned_version_id ≡ ok tt =
        ground arith in
      let third : validate_optional bad_pending index.safety_pending_version_id ≡ ok tt =
        ground arith in
      record {
        versions = validate_versions_sound 0 index.versions first;
        pinned = (validate_optional_iff bad_pinned index.safety_pinned_version_id).0 second;
        pending = (validate_optional_iff bad_pending index.safety_pending_version_id).0 third;
      },
  λ s. ground (
    arith,
    validate_versions_complete 0 index.versions s.versions,
    (validate_optional_iff bad_pinned index.safety_pinned_version_id).1 s.pinned,
    (validate_optional_iff bad_pending index.safety_pending_version_id).1 s.pending,
  ),
)
