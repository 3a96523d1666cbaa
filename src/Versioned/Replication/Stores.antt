-- ===== src/Versioned/Replication/Stores.antt =====
-- crates/core/src/backup/versioned/replication.rs: all sources of one pair of stores replicated.
use backup_sync.Prelude.{Bool, Option, none, some, [], ◌∷◌, if◌then◌else◌, Str, Result, ok, err}
use backup_sync.Map.{Map, get, insert, str_key}
use backup_sync.Versioned.Replication.{
  ReplicationError, not_available, absent, RegularFileState, missing, regular, SourceFiles,
  StoreFiles, regular_file_state,
}
use backup_sync.Versioned.Replication.Pair.{replicate_source}
use backup_sync.Versioned.Replication.Replica.{
  ReplicaIo, MirrorConfig, PairCounters, Replica, no_counters,
}

abbrev pub or_new : Option SourceFiles → SourceFiles
or_new none = record { manifests = []; index = absent; scan_report = absent }
or_new (some s) = s

abbrev pub with_views :
    Result ReplicationError (Unit {0})
    → PairCounters
    → StoreFiles
    → Result ReplicationError PairCounters × StoreFiles
with_views (ok u) pair d = (ok pair, d)
with_views (err e) pair d = (err e, d)

-- `create_dir_all` for the replica's directories and the codec have the outcome `prepared`; the readable
-- views at the end have the outcome `views`.
module _ (io : Str → ReplicaIo) (cfg : MirrorConfig) (src : StoreFiles) where
  abbrev pub dir_of : StoreFiles → Str → SourceFiles
  dir_of d id = or_new (get id d.sources)

  abbrev pub store_back :
      Str
      → Result ReplicationError PairCounters × Replica
      → StoreFiles
      → Result ReplicationError PairCounters × StoreFiles
  store_back id (r, after) d =
      (r, record { sources = insert id after.dir d.sources; blobs = after.blobs })

  abbrev pub continue :
      Result ReplicationError PairCounters × StoreFiles
      → (PairCounters → StoreFiles → Result ReplicationError PairCounters × StoreFiles)
      → Result ReplicationError PairCounters × StoreFiles
  continue (ok pair, d) more = more pair d
  continue (err e, d) more = (err e, d)

  -- A source's directory without an index is passed over.
  abbrev pub source_if :
      Str
      → SourceFiles
      → PairCounters
      → StoreFiles
      → Result ReplicationError RegularFileState
      → Result ReplicationError PairCounters × StoreFiles
  source_if id s pair d (err e) = (err e, d)
  source_if id s pair d (ok missing) = (ok pair, d)
  source_if id s pair d (ok regular) =
      store_back id
        (replicate_source (io id) s src.blobs cfg pair
          (record { dir = dir_of d id; blobs = d.blobs }))
        d

  unfoldable pub replicate_sources :
      Map Str SourceFiles
      → PairCounters
      → StoreFiles
      → Result ReplicationError PairCounters × StoreFiles
  unfolding replicate_source regular_file_state
  replicate_sources [] pair d = (ok pair, d)
  replicate_sources ((id, s) ∷ sources) pair d =
      continue (source_if id s pair d (regular_file_state s.index)) (replicate_sources sources)

  abbrev pub if_prepared :
      Result ReplicationError (Unit {0})
      → Result ReplicationError (Unit {0})
      → StoreFiles
      → Result ReplicationError PairCounters × StoreFiles
  if_prepared (err e) views d = (err e, d)
  if_prepared (ok u) views d =
      continue (replicate_sources src.sources no_counters d)
        (λ pair after. with_views views pair after)

  -- `available`: the replica's directory is there; `src_exists`: the source's store is.
  unfoldable pub replicate_one_pair :
      Bool
      → Bool
      → Result ReplicationError (Unit {0})
      → Result ReplicationError (Unit {0})
      → StoreFiles
      → Result ReplicationError PairCounters × StoreFiles
  unfolding replicate_sources
  replicate_one_pair available src_exists prepared views d =
      if available
      then if src_exists then if_prepared prepared views d else (ok no_counters, d)
      else (err not_available, d)
