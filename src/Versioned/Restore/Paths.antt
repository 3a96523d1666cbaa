-- ===== src/Versioned/Restore/Paths.antt =====
-- Where a path that `validate_relative_path` (restore.rs) accepts leads.
use backup_sync.Prelude.{
  ℕ, ◌≤◌, ◌≡◌, refl, sym, Bool, true, false, ◌||◌, List, [], ◌∷◌, ◌++◌, ◌==◌, any, Str, length, ok,
  ◌>>◌, bail_if, Bool-cases, inl, inr, arith, ap, ◌∙◌, length-append,
}
use mathlib.Core.List.{append_assoc}
use mathlib.Core.Path.{subst}
use backup_sync.Versioned.Restore.{
  RestoreError, unsafe_path, Component, root_dir, cur_dir, parent_dir, normal, push_byte,
  split_path, is_dot, is_dot_dot, is_blank, parse_parts, is_absolute, of_parts, components,
  is_unsafe, has_windows_drive_prefix, validate_relative_path,
}

-- What the system makes of the components of a path from a directory, whose names are listed from
-- the innermost.
abbrev pub resolve : List Component → List Str → List Str
resolve [] dir = dir
resolve (normal w ∷ cs) dir = resolve cs (w ∷ dir)
resolve (cur_dir ∷ cs) dir = resolve cs dir
resolve (parent_dir ∷ cs) [] = resolve cs []
resolve (parent_dir ∷ cs) (w ∷ dir) = resolve cs dir
resolve (root_dir ∷ cs) dir = resolve cs []

-- The place is below the directory: some names, and then those of the directory.
abbrev pub IsBelow : List Str → List Str → Type 0
IsBelow dir place = (names : List Str) × ((1 ≤ length names) × (place ≡ names ++ dir))

resolve-below :
    (cs : List Component) (dir : List Str)
    → any is_unsafe cs ≡ false
    → (names : List Str) × ((length names ≡ length cs) × (resolve cs dir ≡ names ++ dir))
resolve-below [] dir h = ([], (refl, refl))
resolve-below (root_dir ∷ cs) dir h = absurd (ground (arith, h))
resolve-below (cur_dir ∷ cs) dir h = absurd (ground (arith, h))
resolve-below (parent_dir ∷ cs) dir h = absurd (ground (arith, h))
resolve-below (normal w ∷ cs) dir h =
    let (names, (size, place)) = resolve-below cs (w ∷ dir) (ground (arith, h)) in
    (
      names ++ w ∷ [],
      (
        omega (arith, size, length-append names (w ∷ [])),
        place ∙ sym (append_assoc names (w ∷ []) dir),
      ),
    )

push_byte-first :
    (c : ℕ) (ws : List Str) → (w : Str) × ((rest : List Str) × (push_byte c ws ≡ (c ∷ w) ∷ rest))
push_byte-first c [] = ([], ([], refl))
push_byte-first c (w ∷ ws) = (w, (ws, refl))

-- The first part of a path that does not start with a slash begins with its first byte.
first_part :
    (c : ℕ) (s : Str)
    → (c == b'/') ≡ false
    → (w : Str) × ((ws : List Str) × (split_path (c ∷ s) ≡ (c ∷ w) ∷ ws))
unfolding split_path
first_part c s h = let (w, (rest, e)) = push_byte-first c (split_path s) in (w, (rest, rw h e))

parse_parts-first :
    (c : ℕ) (w : Str) (ws : List Str)
    → is_dot (c ∷ w) ≡ false
    → 1 ≤ length (parse_parts ((c ∷ w) ∷ ws))
unfolding parse_parts
parse_parts-first c w ws h = elim (Bool-cases (is_dot_dot (c ∷ w))) [
  | inl up ↦ ground (arith, h, up)
  | inr down ↦ ground (arith, h, down)
]

both_pass :
    (a b : Bool) (e : RestoreError)
    → (bail_if a e >> bail_if b e) ≡ ok tt
    → (a ≡ false) × (b ≡ false)
both_pass true b e h = cc
both_pass false true e h = cc
both_pass false false e h = (refl, refl)

safe_components :
    (path : Str)
    → validate_relative_path path ≡ ok tt
    → (is_blank path ≡ false)
      × ((is_absolute path ≡ false) × (any is_unsafe (components path) ≡ false))
unfolding validate_relative_path
safe_components path h =
    let (first, second) =
      both_pass (is_blank path || any (λ b. b == 92) path || has_windows_drive_prefix path)
        (is_absolute path || any is_unsafe (components path)) (unsafe_path path) h in
    (ground (arith, first), (ground (arith, second), ground (arith, second)))

of_parts-some :
    (c : ℕ) (w : Str) (ws : List Str)
    → any is_unsafe (of_parts false ((c ∷ w) ∷ ws)) ≡ false
    → 1 ≤ length (of_parts false ((c ∷ w) ∷ ws))
of_parts-some c w ws safe = elim (Bool-cases (is_dot (c ∷ w))) [
  | inl dot ↦ absurd (ground (arith, dot, safe))
  | inr name ↦ rw name (parse_parts-first c w ws name)
]

components-some :
    (path : Str)
    → is_blank path ≡ false
    → is_absolute path ≡ false
    → any is_unsafe (components path) ≡ false
    → 1 ≤ length (components path)
unfolding components
components-some [] blank absolute safe = absurd (ground (arith, blank))
components-some (c ∷ s) blank absolute safe =
    let (w, (ws, e)) = first_part c s absolute in
    let parts : of_parts (is_absolute (c ∷ s)) (split_path (c ∷ s))
        ≡ of_parts false ((c ∷ w) ∷ ws) =
      ap (λ b. of_parts b (split_path (c ∷ s))) absolute ∙ ap (of_parts false) e in
    subst (λ t. 1 ≤ length t) (sym parts)
      (of_parts-some c w ws (subst (λ t. any is_unsafe t ≡ false) parts safe))

-- A path that a restore accepts, joined to a directory, names a place strictly below the directory,
-- whichever directory it is.
pub validate_relative_path-IsBelow :
    (path : Str) (dir : List Str)
    → validate_relative_path path ≡ ok tt
    → IsBelow dir (resolve (components path) dir)
validate_relative_path-IsBelow path dir h =
    let (blank, (absolute, safe)) = safe_components path h in
    let (names, (size, place)) = resolve-below (components path) dir safe in
    (names, (omega (arith, size, components-some path blank absolute safe), place))
