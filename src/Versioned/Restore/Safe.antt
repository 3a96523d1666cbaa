-- ===== src/Versioned/Restore/Safe.antt =====
-- The paths that `validate_relative_path` (restore.rs) accepts, by their bytes and their parts.
use mathlib.Core.Path.{subst}
use backup_sync.Prelude.{
  ℕ, ◌≤◌, ◌≡◌, ◌≢◌, ◌↔◌, ◌⊎◌, inl, inr, refl, sym, ap, true, false, ◌||◌, Bool-cases, List, [], ◌∷◌,
  All, any, ◌==◌, Str, codes, str_eq, str_eq_iff, ok, arith,
}
use backup_sync.Versioned.Restore.{
  split_path, is_dot, is_dot_dot, is_blank, parse_parts, is_absolute, starts_with_dot, of_parts,
  components, is_unsafe, has_windows_drive_prefix, validate_relative_path,
}

abbrev IsLetter : ℕ → Type 0
IsLetter b = ((65 ≤ b) × (b ≤ 90)) ⊎ ((97 ≤ b) × (b ≤ 122))

-- Not a letter and a colon at the start.
abbrev HasNoDrive : Str → Type 0
HasNoDrive (a ∷ b ∷ s) = IsLetter a → b ≢ 58
HasNoDrive _ = Unit {0}

abbrev IsRelative : Str → Type 0
IsRelative [] = Unit {0}
IsRelative (b ∷ s) = b ≢ 47

abbrev BeginsPlainly : List Str → Type 0
BeginsPlainly [] = Unit {0}
BeginsPlainly (w ∷ ws) = w ≢ codes "."

-- A path of some bytes without a backslash, a drive or a slash at the start, whose first part is not
-- `.`, and none of whose parts is `..`.
pub record IsSafePath (path : Str) : Type 0 where
  pub not_blank : path ≢ []
  pub no_backslash : All (λ b. b ≢ 92) path
  pub no_drive : HasNoDrive path
  pub relative : IsRelative path
  pub begins : BeginsPlainly (split_path path)
  pub no_parent : All (λ w. w ≢ codes "..") (split_path path)

unequal : (s t : Str) → (str_eq s t ≡ false) ↔ (s ≢ t)
unequal s t = (
  λ h e. let same = (str_eq_iff s t).1 e in absurd (ground (arith, same, h)),
  λ ne. elim (Bool-cases (str_eq s t)) [
    | inl same ↦ absurd (ne ((str_eq_iff s t).0 same))
    | inr differ ↦ differ
  ],
)

backslash : (s : Str) → (any (λ b. b == 92) s ≡ false) ↔ All (λ b. b ≢ 92) s
backslash [] = (λ h. tt, λ h. refl)
backslash (b ∷ s) = ground (arith, backslash s)

drive : (s : Str) → (has_windows_drive_prefix s ≡ false) ↔ HasNoDrive s
drive [] = (λ h. tt, λ h. refl)
drive (a ∷ []) = (λ h. tt, λ h. refl)
drive (a ∷ b ∷ s) = ground arith

absolute : (s : Str) → (is_absolute s ≡ false) ↔ IsRelative s
absolute [] = (λ h. tt, λ h. refl)
absolute (b ∷ s) = ground arith

skipped : (w : Str) → (is_blank w || is_dot w) ≡ true → w ≢ codes ".."
skipped w h e =
    let no : false ≡ true = subst (λ t. (is_blank t || is_dot t) ≡ true) e h in
    absurd (ground (arith, no))

parents : (ws : List Str) → (any is_unsafe (parse_parts ws) ≡ false) ↔ All (λ w. w ≢ codes "..") ws
unfolding parse_parts
parents [] = (λ h. tt, λ h. refl)
parents (w ∷ ws) = elim (Bool-cases (is_blank w || is_dot w)) [
  | inl left_out ↦
      rw left_out (λ h. (skipped w left_out, (parents ws).0 h), λ h. (parents ws).1 h.1)
  | inr kept ↦ elim (Bool-cases (is_dot_dot w)) [
    | inl up ↦
        rw (kept, up)
          (λ h. absurd (ground (arith, h)), λ h. absurd (h.0 ((str_eq_iff w (codes "..")).0 up)))
    | inr down ↦
        rw (kept, down)
          (λ h. ((unequal w (codes "..")).0 down, (parents ws).0 h), λ h. (parents ws).1 h.1)
  ]
]

begins_plainly : (ws : List Str) → (starts_with_dot ws ≡ false) ↔ BeginsPlainly ws
begins_plainly [] = (λ h. tt, λ h. refl)
begins_plainly (w ∷ ws) = unequal w (codes ".")

safe_parts :
    (ws : List Str)
    → (any is_unsafe (of_parts false ws) ≡ false)
      ↔ (BeginsPlainly ws × All (λ w. w ≢ codes "..") ws)
safe_parts ws = elim (Bool-cases (starts_with_dot ws)) [
  | inl dot ↦ rw dot (
    λ h. absurd (ground (arith, h)),
    λ h. let plain = (begins_plainly ws).1 h.0 in absurd (ground (arith, dot, plain)),
  )
  | inr plain ↦
      rw plain (λ h. ((begins_plainly ws).0 plain, (parents ws).0 h), λ h. (parents ws).1 h.1)
]

some_bytes : (path : Str) → path ≢ [] → is_blank path ≡ false
some_bytes [] ne = absurd (ne refl)
some_bytes (b ∷ s) ne = refl

relative_parts :
    (path : Str)
    → is_absolute path ≡ false
    → any is_unsafe (components path) ≡ false
    → any is_unsafe (of_parts false (split_path path)) ≡ false
unfolding components
relative_parts path d e = subst (λ b. any is_unsafe (of_parts b (split_path path)) ≡ false) d e

parts_relative :
    (path : Str)
    → is_absolute path ≡ false
    → any is_unsafe (of_parts false (split_path path)) ≡ false
    → any is_unsafe (components path) ≡ false
unfolding components
parts_relative path d e =
    subst (λ b. any is_unsafe (of_parts b (split_path path)) ≡ false) (sym d) e

pub validate_relative_path-iff-IsSafePath :
    (path : Str) → (validate_relative_path path ≡ ok tt) ↔ IsSafePath path
unfolding validate_relative_path
validate_relative_path-iff-IsSafePath path = (
  λ h.
      let a : is_blank path ≡ false = ground (arith, h) in
      let b : any (λ b. b == 92) path ≡ false = ground (arith, h) in
      let c : has_windows_drive_prefix path ≡ false = ground (arith, h) in
      let d : is_absolute path ≡ false = ground (arith, h) in
      let e : any is_unsafe (components path) ≡ false = ground (arith, h) in
      let (begins, none_up) = (safe_parts (split_path path)).0 (relative_parts path d e) in
      record {
        not_blank = λ q. let no = ap is_blank q in absurd (ground (arith, no, a));
        no_backslash = (backslash path).0 b;
        no_drive = (drive path).0 c;
        relative = (absolute path).0 d;
        begins = begins;
        no_parent = none_up;
      },
  λ s.
      let a = some_bytes path s.not_blank in
      let b = (backslash path).1 s.no_backslash in
      let c = (drive path).1 s.no_drive in
      let d = (absolute path).1 s.relative in
      let e = parts_relative path d ((safe_parts (split_path path)).1 (s.begins, s.no_parent)) in
      ground (arith, a, b, c, d, e),
)
