-- ===== src/Versioned/Restore/Accepted.antt =====
-- The manifests that a restore accepts.
use mathlib.Core.Path.{subst}
use backup_sync.Prelude.{
  ℕ, ◌≤◌, ◌≡◌, ◌⊎◌, ◌↔◌, all, length, refl, sym, Bool, true, false, not, Option, none, some, [],
  ◌∷◌, All, some, Str, str_eq, str_eq_iff, Result, ok, err, ◌>>◌, bail_if, arith,
}
use backup_sync.Map.{Map}
use backup_sync.Versioned.Model.{ManifestEntry, Manifest}
use backup_sync.Versioned.Disk.{is_lower_hex_byte}
use backup_sync.Versioned.Restore.{
  RestoreError, key_mismatch, validate_relative_path, validate_content_hash, validate_optional_hash,
  validate_entry, validate_entries, validate_manifest,
}
use backup_sync.Versioned.Restore.Safe.{IsSafePath, validate_relative_path-iff-IsSafePath}

-- A digit, or a letter from `a` to `f`.
abbrev pub IsHexByte : ℕ → Type 0
IsHexByte b = ((48 ≤ b) × (b ≤ 57)) ⊎ ((97 ≤ b) × (b ≤ 102))

abbrev pub IsHexDigest : Str → Type 0
IsHexDigest h = (length h ≡ 64) × All IsHexByte h

-- A safe path, an entry under it, and a digest that names a blob.
abbrev pub IsAcceptable : Str × ManifestEntry → Type 0
IsAcceptable (key, entry) =
    IsSafePath key × ((entry.rel_path ≡ key) × ((h : Str) → entry.sha256 ≡ some h → IsHexDigest h))

in_order :
    {E : Type 0} (a b : Result E (Unit {0})) → ((a >> b) ≡ ok tt) ↔ ((a ≡ ok tt) × (b ≡ ok tt))
in_order (ok tt) b = (λ h. (refl, h), λ h. h.1)
in_order (err e) b = (λ h. cc, λ h. cc)

passes : {E : Type 0} (b : Bool) (e : E) → (bail_if b e ≡ ok tt) ↔ (b ≡ false)
passes true e = (λ h. cc, λ h. cc)
passes false e = (λ h. refl, λ h. refl)

hex_byte : (b : ℕ) → (is_lower_hex_byte b ≡ true) ↔ IsHexByte b
unfolding is_lower_hex_byte
hex_byte b = ground arith

hex_bytes : (s : Str) → (all is_lower_hex_byte s ≡ true) ↔ All IsHexByte s
hex_bytes [] = (λ h. tt, λ h. refl)
hex_bytes (b ∷ s) =
    let here = hex_byte b in
    let rest = hex_bytes s in
    (
      λ h. (here.0 (ground (arith, h)), rest.0 (ground (arith, h))),
      λ h. let first = here.1 h.0 in let others = rest.1 h.1 in ground (arith, first, others),
    )

validate_content_hash-iff-hex :
    (hash rel_path : Str) → (validate_content_hash hash rel_path ≡ ok tt) ↔ IsHexDigest hash
unfolding validate_content_hash
validate_content_hash-iff-hex hash rel_path = (
  λ h. (ground (arith, h), (hex_bytes hash).0 (ground (arith, h))),
  λ h. let bytes = (hex_bytes hash).1 h.1 in ground (arith, bytes, h),
)

validate_optional_hash-iff-hex :
    (hash : Option Str) (rel_path : Str)
    → (validate_optional_hash hash rel_path ≡ ok tt) ↔ ((h : Str) → hash ≡ some h → IsHexDigest h)
validate_optional_hash-iff-hex none rel_path = (λ p h q. cc, λ f. refl)
validate_optional_hash-iff-hex (some x) rel_path = (
  λ p h q.
      let it : x ≡ h = ground arith in
      subst IsHexDigest it ((validate_content_hash-iff-hex x rel_path).0 p),
  λ f. (validate_content_hash-iff-hex x rel_path).1 (f x refl),
)

validate_entry-iff-IsAcceptable :
    (key : Str) (entry : ManifestEntry)
    → (validate_entry key entry ≡ ok tt) ↔ IsAcceptable (key, entry)
unfolding validate_entry
validate_entry-iff-IsAcceptable key entry =
    let a = validate_relative_path key in
    let b = validate_relative_path entry.rel_path in
    let c : Result RestoreError (Unit {0}) =
      bail_if (not (str_eq key entry.rel_path)) (key_mismatch key entry.rel_path) in
    let d = validate_optional_hash entry.sha256 entry.rel_path in
    let same = passes (not (str_eq key entry.rel_path)) (key_mismatch key entry.rel_path) in
    let safe = validate_relative_path-iff-IsSafePath key in
    let hash = validate_optional_hash-iff-hex entry.sha256 entry.rel_path in
    (
      λ h.
          let (abc, at_d) = (in_order (a >> b >> c) d).0 h in
          let (ab, at_c) = (in_order (a >> b) c).0 abc in
          let (at_a, at_b) = (in_order a b).0 ab in
          let unequal = same.0 at_c in
          (
            safe.0 at_a,
            (sym ((str_eq_iff key entry.rel_path).0 (ground (arith, unequal))), hash.0 at_d),
          ),
      λ h.
          let (is_safe, (key_is, hex)) = h in
          let at_a = safe.1 is_safe in
          let equal = (str_eq_iff key entry.rel_path).1 (sym key_is) in
          let at_b = subst (λ t. validate_relative_path t ≡ ok tt) (sym key_is) at_a in
          (in_order (a >> b >> c) d).1 (
            (in_order (a >> b) c).1 ((in_order a b).1 (at_a, at_b), same.1 (ground (arith, equal))),
            hash.1 hex,
          ),
    )

validate_entries-iff-IsAcceptable :
    (entries : Map Str ManifestEntry)
    → (validate_entries entries ≡ ok tt) ↔ All IsAcceptable entries
unfolding validate_entries
validate_entries-iff-IsAcceptable [] = (λ h. tt, λ h. refl)
validate_entries-iff-IsAcceptable ((key, entry) ∷ entries) =
    let step = in_order (validate_entry key entry) (validate_entries entries) in
    let here = validate_entry-iff-IsAcceptable key entry in
    let rest = validate_entries-iff-IsAcceptable entries in
    (λ h. let (a, b) = step.0 h in (here.0 a, rest.0 b), λ h. step.1 (here.1 h.0, rest.1 h.1))

-- A restore accepts a manifest exactly when each entry stands under its own path, the digest, if any,
-- has 64 bytes, digits and letters from `a` to `f` alone, and the path has some bytes, no backslash,
-- no letter and colon at the start, no slash at the start, no first part `.` and no part `..`.
pub validate_manifest-iff-IsAcceptable :
    (manifest : Manifest) → (validate_manifest manifest ≡ ok tt) ↔ All IsAcceptable manifest.entries
unfolding validate_manifest
validate_manifest-iff-IsAcceptable manifest = validate_entries-iff-IsAcceptable manifest.entries
