-- ===== src/Retention.antt =====
-- crates/core/src/backup/retention/policy.rs: which copies of a file are kept.
pub mod Partition
use backup_sync.Prelude.{
  ℕ, zero, suc, ◌-◌, Bool, true, false, Option, none, some, List, [], ◌∷◌, ◌==◌, leb, if◌then◌else◌,
  Str, length, take, drop, Result, ok, err, ◌>>=◌,
}
use backup_sync.Prelude.Int.{ℤ, pos, int_le}

pub data RetentionError : Type 0 where
  max_is_zero : RetentionError

-- `i64::MAX`
abbrev i64_max : ℤ
i64_max = pos 9223372036854775807

-- `unwrap_or(i64::MAX)`
abbrev pub or_last : Option ℤ → ℤ
or_last none = i64_max
or_last (some t) = t

-- `chrono`'s reading of the file name's first part is an argument.
module _ (parse_timestamp : Str → Option ℤ) where
  abbrev pub key : Str → ℤ
  key path = or_last (parse_timestamp path)

  -- `sort_by_key`, which is stable.
  unfoldable pub insert_by_key : Str → List Str → List Str
  insert_by_key path [] = path ∷ []
  insert_by_key path (other ∷ paths) =
      if int_le (key path) (key other)
      then path ∷ other ∷ paths
      else other ∷ insert_by_key path paths

  unfoldable pub sort_by_key : List Str → List Str
  unfolding insert_by_key
  sort_by_key [] = []
  sort_by_key (path ∷ paths) = insert_by_key path (sort_by_key paths)

  -- The copies to remove, and those to keep.
  unfoldable pub partition : ℕ → List Str → Result RetentionError (List Str × List Str)
  unfolding sort_by_key
  partition max existing =
      if max == 0
      then err max_is_zero
      else if leb (length existing) max
      then ok ([], existing)
      else let sorted = sort_by_key existing in
        let keep_from = length sorted - max in ok (take keep_from sorted, drop keep_from sorted)

  unfoldable pub enforce : ℕ → List Str → Result RetentionError (List Str)
  unfolding partition
  enforce max existing = partition max existing >>= λ parts. ok parts.1
