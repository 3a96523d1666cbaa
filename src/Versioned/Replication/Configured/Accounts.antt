-- ===== src/Versioned/Replication/Configured/Accounts.antt =====
-- The summary of `replicate_configured_stores` of crates/core/src/backup/versioned/replication.rs.
use backup_sync.Prelude.{
  ℕ, suc, ◌+◌, ◌≡◌, refl, ap, true, none, some, List, [], ◌∷◌, Str, length, length-append, Result,
  ok, err, arith,
}
use backup_sync.Versioned.Replication.{ReplicationError}
use backup_sync.Versioned.Replication.Replica.{PairCounters}
use backup_sync.Versioned.Replication.Configured.{
  ReplicaTarget, ReplicationSummary, TargetPair, no_summary, pairs_of, configured_pairs,
  after_attempt, attempt_pair, attempt_pairs, replicate_configured_stores,
}

-- As many pairs as there are targets in the lists of all destinations.
unfoldable pub target_count : List ReplicaTarget → ℕ
target_count [] = 0
target_count (d ∷ ds) = length d.replicate_to + target_count ds

length-pairs_of :
    (all : List ReplicaTarget) (src : ReplicaTarget) (ids : List Str)
    → length (pairs_of all src ids) ≡ length ids
unfolding pairs_of
length-pairs_of all src [] = refl
length-pairs_of all src (id ∷ ids) = omega (arith, length-pairs_of all src ids)

length-configured_pairs :
    (all srcs : List ReplicaTarget) → length (configured_pairs all srcs) ≡ target_count srcs
unfolding configured_pairs target_count
length-configured_pairs all [] = refl
length-configured_pairs all (src ∷ srcs) = omega (
  arith,
  length-append (pairs_of all src src.replicate_to) (configured_pairs all srcs),
  length-pairs_of all src src.replicate_to,
  length-configured_pairs all srcs,
)

-- The pairs of a summary that add up.
abbrev pub AddsUp : ReplicationSummary → ℕ → Type 0
AddsUp summary n =
    (summary.pairs_attempted ≡ n)
    × (summary.pairs_ok + summary.pairs_failed ≡ n)
    × (length summary.targets_failed ≡ summary.pairs_failed)

module _ {S : Type 0}
    (attempt : ReplicaTarget → ReplicaTarget → S → Result ReplicationError PairCounters × S) where
  after_attempt-AddsUp :
      (id : Str) (summary : ReplicationSummary) (n : ℕ)
      (r : Result ReplicationError PairCounters × S)
      → AddsUp summary n
      → AddsUp (after_attempt attempt id summary r).0 (suc n)
  after_attempt-AddsUp id summary n (ok pair, s) (a, b, c) = (ap suc a, omega (arith, b), c)
  after_attempt-AddsUp id summary n (err e, s) (a, b, c) =
      (ap suc a, omega (arith, b), omega (arith, c, length-append summary.targets_failed (id ∷ [])))

  attempt_pair-AddsUp :
      (pair : TargetPair) (summary : ReplicationSummary) (n : ℕ) (s : S)
      → AddsUp summary n
      → AddsUp (attempt_pair attempt pair summary s).0 (suc n)
  attempt_pair-AddsUp (src, (id, none)) summary n s (a, b, c) =
      (ap suc a, omega (arith, b), omega (arith, c, length-append summary.targets_failed (id ∷ [])))
  attempt_pair-AddsUp (src, (id, some dst)) summary n s h =
      after_attempt-AddsUp dst.id summary n (attempt src dst s) h

  attempt_pairs-AddsUp :
      (pairs : List TargetPair) (summary : ReplicationSummary) (n : ℕ) (s : S)
      → AddsUp summary n
      → AddsUp (attempt_pairs attempt pairs summary s).0 (n + length pairs)
  unfolding attempt_pairs
  attempt_pairs-AddsUp [] summary n s (a, b, c) = (omega (arith, a), omega (arith, b), c)
  attempt_pairs-AddsUp (pair ∷ pairs) summary n s h =
      let (a, b, c) =
        attempt_pairs-AddsUp pairs (attempt_pair attempt pair summary s).0 (suc n)
          (attempt_pair attempt pair summary s).1 (attempt_pair-AddsUp pair summary n s h) in
      (omega (arith, a), omega (arith, b), c)

  -- A replication that is enabled and has its leases does not stop at a pair that fails: it
  -- attempts one pair for each target that a destination lists, each succeeds or fails, and the
  -- summary names one target for each that failed.
  pub replicate_configured_stores-AddsUp :
      (destinations : List ReplicaTarget) (s : S)
      → (summary : ReplicationSummary) × ((replicate_configured_stores attempt true
            (ok tt)
            destinations
            s).0
          ≡ ok summary)
        × AddsUp summary (target_count destinations)
  unfolding replicate_configured_stores
  replicate_configured_stores-AddsUp destinations s =
      let pairs = configured_pairs destinations destinations in
      let (a, b, c) = attempt_pairs-AddsUp pairs no_summary 0 s (refl, refl, refl) in
      let n = length-configured_pairs destinations destinations in
      (
        (attempt_pairs attempt pairs no_summary s).0,
        refl,
        (omega (arith, a, n), omega (arith, b, n), c),
      )
