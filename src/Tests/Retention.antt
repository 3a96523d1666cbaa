-- ===== src/Tests/Retention.antt =====
-- The theorem on retention, with the first byte of a name as its time.
use backup_sync.Prelude.{◌≡◌, Option, none, some, List, [], ◌∷◌, Str, codes, ok, arith, refl}
use backup_sync.Prelude.Int.{ℤ, pos}
use backup_sync.Retention.{partition, sort_by_key, insert_by_key}
use backup_sync.Retention.Partition.{IsPartition, partition-IsPartition}

abbrev first_byte : Str → Option ℤ
first_byte [] = none
first_byte (c ∷ s) = some (pos c)

abbrev copies : List Str
copies = codes "c" ∷ codes "a" ∷ codes "b" ∷ []

partition_runs : partition first_byte 2 copies ≡ ok (codes "a" ∷ [], codes "b" ∷ codes "c" ∷ [])
unfolding partition sort_by_key insert_by_key
partition_runs = refl

partition-IsPartition_example :
    (pruned : List Str) × (retained : List Str) × (partition first_byte 2 copies
      ≡ ok (pruned, retained))
    × IsPartition first_byte 2 copies pruned retained
partition-IsPartition_example = partition-IsPartition first_byte 2 copies (omega arith)
