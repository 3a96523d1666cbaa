-- ===== src/Versioned/Scrub.antt =====
-- crates/core/src/backup/versioned/scrub.rs: which blobs a scrub hashes.
pub mod Gcd
pub mod Walk
pub mod Selection
use backup_sync.Prelude.{
  ℕ, zero, suc, ◌+◌, ◌%◌, Bool, true, false, ◌||◌, Option, none, some, List, [], ◌∷◌, ◌==◌,
  if◌then◌else◌, Str, length, get_elem?, min, Result, ok, err, ◌>>=◌,
}

pub data ScrubMode : Type 0 where
  sampled full : ScrubMode

-- A panic at an index out of bounds, or a loop that does not end within its fuel.
pub data SelectError : Type 0 where
  out_of_bounds no_stride : SelectError

abbrev pub is_full : ScrubMode → Bool
is_full full = true
is_full sampled = false

abbrev pub is_nil {ℓ} : {A : Type ℓ} → List A → Bool
is_nil [] = true
is_nil (_ ∷ _) = false

-- `while right != 0 { (left, right) = (right, left % right) }`
unfoldable pub gcd_loop : ℕ → ℕ → ℕ → ℕ
gcd_loop zero left right = left
gcd_loop (suc fuel) left right =
    let rest = gcd_loop fuel right (left % right) in if right == 0 then left else rest

-- Each round makes `right` smaller.
unfoldable pub greatest_common_divisor : ℕ → ℕ → ℕ
unfolding gcd_loop
greatest_common_divisor left right = gcd_loop (suc right) left right

-- `if step == 0 { step = 1 }`
unfoldable pub at_least_one : ℕ → ℕ
at_least_one step = if step == 0 then 1 else step

-- `while greatest_common_divisor(step, len) != 1 { step = (step + 1) % len; ... }`
unfoldable pub find_stride : ℕ → ℕ → ℕ → Option ℕ
unfolding greatest_common_divisor at_least_one
find_stride zero len step = none
find_stride (suc fuel) len step =
    let rest = find_stride fuel len (at_least_one ((step + 1) % len)) in
    if greatest_common_divisor step len == 1 then some step else rest

-- `while out.len() < max { out.push(hashes[idx].clone()); idx = (idx + step) % len }`, by the
-- rounds that are left.
unfoldable pub walk : List Str → ℕ → ℕ → ℕ → Result SelectError (List Str)
walk hashes step zero idx = ok []
walk hashes step (suc rounds) idx =
    let rest = walk hashes step rounds ((idx + step) % length hashes) in
    elim (get_elem? hashes idx) [
      | none ↦ err out_of_bounds
      | some h ↦ do selected ← rest; ok (h ∷ selected)
    ]

unfoldable pub select_hashes_for_mode : List Str → ℕ → ScrubMode → ℕ → Result SelectError (List Str)
unfolding find_stride walk at_least_one
select_hashes_for_mode hashes sample_blobs mode seed =
    let len = length hashes in
    let max = min sample_blobs len in
    if is_full mode || is_nil hashes
    then ok []
    else if max == len
    then ok hashes
    else elim (find_stride len len (at_least_one (97 % len))) [
      | none ↦ err no_stride
      | some step ↦ walk hashes step max (seed % len)
    ]
