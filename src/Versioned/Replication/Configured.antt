-- ===== src/Versioned/Replication/Configured.antt =====
-- `replicate_configured_stores` of crates/core/src/backup/versioned/replication.rs: all configured
-- pairs, and the summary of what came of them.
pub mod Accounts
use backup_sync.Prelude.{
  ℕ, suc, ◌+◌, Bool, true, false, Option, none, some, List, [], ◌∷◌, ◌++◌, if◌then◌else◌, Str,
  str_eq, Result, ok, err,
}
use backup_sync.Codec.Encode.{sat_add}
use backup_sync.Versioned.Replication.{ReplicationError}
use backup_sync.Versioned.Replication.Replica.{PairCounters, no_counters}

-- A destination, as far as a replication reads it.
pub record ReplicaTarget : Type 0 where
  pub id : Str
  pub replicate_to : List Str

pub record ReplicationSummary : Type 0 where
  pub pairs_attempted : ℕ
  pub pairs_ok : ℕ
  pub pairs_failed : ℕ
  pub totals : PairCounters
  pub targets_failed : List Str

abbrev pub no_summary : ReplicationSummary
no_summary = record {
  pairs_attempted = 0;
  pairs_ok = 0;
  pairs_failed = 0;
  totals = no_counters;
  targets_failed = [];
}

abbrev or_this : Option ReplicaTarget → Option ReplicaTarget → Option ReplicaTarget
or_this none other = other
or_this (some d) other = some d

-- `by_id.get(id)`: a later destination of the same id replaces an earlier one in the map.
unfoldable pub by_id : List ReplicaTarget → Str → Option ReplicaTarget
by_id [] id = none
by_id (d ∷ ds) id = or_this (by_id ds id) (if str_eq d.id id then some d else none)

-- A source, the id of its target, and the target if there is one.
abbrev pub TargetPair : Type 0
TargetPair = ReplicaTarget × (Str × Option ReplicaTarget)

unfoldable pub pairs_of : List ReplicaTarget → ReplicaTarget → List Str → List TargetPair
unfolding by_id
pairs_of all src [] = []
pairs_of all src (id ∷ ids) = (src, (id, by_id all id)) ∷ pairs_of all src ids

unfoldable pub configured_pairs : List ReplicaTarget → List ReplicaTarget → List TargetPair
unfolding pairs_of
configured_pairs all [] = []
configured_pairs all (src ∷ srcs) = pairs_of all src src.replicate_to ++ configured_pairs all srcs

abbrev pub failed_target : Str → ReplicationSummary → ReplicationSummary
failed_target id summary = record summary {
  pairs_attempted = suc summary.pairs_attempted;
  pairs_failed = suc summary.pairs_failed;
  targets_failed = summary.targets_failed ++ (id ∷ []);
}

abbrev pub added : PairCounters → PairCounters → PairCounters
added totals pair = record {
  manifests_copied = totals.manifests_copied + pair.manifests_copied;
  blobs_copied = totals.blobs_copied + pair.blobs_copied;
  bytes_copied = sat_add totals.bytes_copied pair.bytes_copied;
  manifests_deleted = totals.manifests_deleted + pair.manifests_deleted;
}

abbrev pub finished_pair : PairCounters → ReplicationSummary → ReplicationSummary
finished_pair pair summary = record summary {
  pairs_attempted = suc summary.pairs_attempted;
  pairs_ok = suc summary.pairs_ok;
  totals = added summary.totals pair;
}

-- `attempt` replicates one pair over the state of all stores.
module _ {S : Type 0}
    (attempt : ReplicaTarget → ReplicaTarget → S → Result ReplicationError PairCounters × S) where
  abbrev pub after_attempt :
      Str → ReplicationSummary → Result ReplicationError PairCounters × S → ReplicationSummary × S
  after_attempt id summary (ok pair, s) = (finished_pair pair summary, s)
  after_attempt id summary (err e, s) = (failed_target id summary, s)

  abbrev pub attempt_pair : TargetPair → ReplicationSummary → S → ReplicationSummary × S
  attempt_pair (src, (id, none)) summary s = (failed_target id summary, s)
  attempt_pair (src, (id, some dst)) summary s = after_attempt dst.id summary (attempt src dst s)

  unfoldable pub attempt_pairs : List TargetPair → ReplicationSummary → S → ReplicationSummary × S
  attempt_pairs [] summary s = (summary, s)
  attempt_pairs (pair ∷ pairs) summary s =
      attempt_pairs pairs (attempt_pair pair summary s).0 (attempt_pair pair summary s).1

  abbrev pub leased :
      Result ReplicationError (Unit {0})
      → List ReplicaTarget
      → S
      → Result ReplicationError ReplicationSummary × S
  leased (err e) destinations s = (err e, s)
  leased (ok u) destinations s =
      let (summary, after) =
        attempt_pairs (configured_pairs destinations destinations) no_summary s in
      (ok summary, after)

  -- `leases` is the outcome of `acquire_store_leases`; the message of the summary is not kept.
  unfoldable pub replicate_configured_stores :
      Bool
      → Result ReplicationError (Unit {0})
      → List ReplicaTarget
      → S
      → Result ReplicationError ReplicationSummary × S
  unfolding attempt_pairs configured_pairs
  replicate_configured_stores enabled leases destinations s =
      if enabled then leased leases destinations s else (ok no_summary, s)
