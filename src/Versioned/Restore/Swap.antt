-- ===== src/Versioned/Restore/Swap.antt =====
-- The trees at the places of `swap_staged_tree_into_place` (restore.rs).
use backup_sync.Prelude.{
  ◌≡◌, refl, Bool, true, false, Option, none, some, Result, ok, err, ◌⊎◌, inl, inr,
}
use backup_sync.Versioned.Restore.{RestoreError, Places, SwapIo, swap_staged_tree_into_place}

-- Every rename that the old tree needs to get back was refused: the target is free, and it is aside.
abbrev pub IsStranded : {Tree : Type 0} → SwapIo → Option Tree → Places Tree → Type 0
IsStranded io old p =
    (io.move_refused ≡ true)
    × ((io.rollback_refused ≡ true) × ((p.target ≡ none) × (p.aside ≡ old)))

-- What a swap of `new` for `old` may end with.
abbrev pub Swapped :
    {Tree : Type 0}
    → SwapIo
    → Tree
    → Option Tree
    → Result RestoreError (Option Tree)
    → Places Tree
    → Type 0
Swapped io new old (ok moved) p =
    (p.stage ≡ none) × ((p.target ≡ some new) × ((p.aside ≡ old) × (moved ≡ old)))
Swapped io new old (err e) p =
    (p.stage ≡ some new) × (((p.target ≡ old) × (p.aside ≡ none)) ⊎ IsStranded io old p)

-- By what the file system refuses.
swap_cases :
    {Tree : Type 0} (aside_refused move_refused rollback_refused : Bool) (new : Tree)
    (old : Option Tree)
    → let io : SwapIo = record {
      aside_refused = aside_refused;
      move_refused = move_refused;
      rollback_refused = rollback_refused;
    } in
      let r =
        swap_staged_tree_into_place io (record { stage = some new; target = old; aside = none }) in
      Swapped io new old r.0 r.1
unfolding swap_staged_tree_into_place
swap_cases a true r new none = (refl, inl (refl, refl))
swap_cases a false r new none = (refl, (refl, (refl, refl)))
swap_cases true m r new (some old) = (refl, inl (refl, refl))
swap_cases false false r new (some old) = (refl, (refl, (refl, refl)))
swap_cases false true true new (some old) = (refl, inr (refl, (refl, (refl, refl))))
swap_cases false true false new (some old) = (refl, inl (refl, refl))

-- Let a tree be staged, and nothing stand at the place aside. If the swap succeeds, nothing is staged
-- any more, the staged tree is at the target and the old one, if any, aside, where the result tells.
-- If it fails, the staged tree is still staged, and the old one is at the target with nothing aside;
-- only where both the move of the staged tree and the rename back were refused may the target be free
-- and the old tree aside.
pub swap_staged_tree_into_place-Swapped :
    {Tree : Type 0} (io : SwapIo) (new : Tree) (old : Option Tree)
    → let r =
        swap_staged_tree_into_place io (record { stage = some new; target = old; aside = none }) in
      Swapped io new old r.0 r.1
swap_staged_tree_into_place-Swapped io new old =
    swap_cases io.aside_refused io.move_refused io.rollback_refused new old
