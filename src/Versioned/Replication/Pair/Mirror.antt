-- ===== src/Versioned/Replication/Pair/Mirror.antt =====
-- `mirror_manifest_deletions` of crates/core/src/backup/versioned/replication.rs: what it removes.
use backup_sync.Prelude.{
  ℕ, zero, suc, ◌+◌, ◌≤◌, ◌≡◌, refl, ap, inl, inr, Bool, true, false, Bool-cases, List, [], ◌∷◌,
  ◌++◌, Str, str_eq, any, length, min, if◌then◌else◌, Result, ok, arith,
}
use backup_sync.Prelude.Run.{Run, ◌>>◌}
use backup_sync.Map.{Map, remove, str_key}
use backup_sync.Versioned.Model.{VersionInfo, VersionIndex}
use backup_sync.Versioned.Replication.{
  ReplicationError, FileOnDisk, absent, irregular, file, SourceFiles,
}
use backup_sync.Versioned.Replication.Pair.{
  removed_file, delete_or_stop, mirror_loop, mirror_manifest_deletions,
}
use backup_sync.Versioned.Replication.Replica.{ReplicaIo, Replica}

-- The names of the manifest files that no listed version has, in the directory's order.
abbrev pub stale : List VersionInfo → Map Str FileOnDisk → List Str
stale versions [] = []
stale versions ((id, absent) ∷ names) = stale versions names
stale versions ((id, irregular) ∷ names) = stale versions names
stale versions ((id, file content) ∷ names) =
    if any (λ v. str_eq v.id id) versions then stale versions names else id ∷ stale versions names

-- A replica without these manifests.
abbrev pub without_all : List Str → Replica → Replica
without_all [] s = s
without_all (id ∷ ids) s =
    without_all ids (record s { dir = record s.dir { manifests = remove id s.dir.manifests } })

-- Of the names that are stale the first ones were removed, at most so many, and nothing else of the
-- replica changed; a run that succeeds has removed as many as it may, and tells how many, on top of
-- those before.
pub record Removes (names : List Str) (most already : ℕ) (before : Replica)
    (end : Result ReplicationError ℕ × Replica) : Type 0 where
  pub removed : List Str
  pub kept : List Str
  pub in_order : removed ++ kept ≡ names
  pub bound : length removed ≤ most
  pub left : end.1 ≡ without_all removed before
  pub counted :
      (n : ℕ)
      → end.0 ≡ ok n
      → (n ≡ already + length removed) × (length removed ≡ min most (length names))

module _ (io : ReplicaIo) (src : SourceFiles) (src_blobs : Map (Str × Str) FileOnDisk) where
  removed_then :
      (refused : Bool) (id : Str) (names : List Str) (most already : ℕ)
      (m : Run Replica ReplicationError ℕ) (s : Replica)
      → ((t : Replica) → Removes names most (suc already) t (m t))
      → Removes
          (id ∷ names)
          (suc most)
          already
          s
          ((removed_file io src src_blobs refused id >> m) s)
  removed_then true id names most already m s h = record {
    removed = [];
    kept = id ∷ names;
    in_order = refl;
    bound = omega arith;
    left = refl;
    counted = λ n e. absurd (ground arith);
  }
  removed_then false id names most already m s h =
      let r = h (record s { dir = record s.dir { manifests = remove id s.dir.manifests } }) in
      record {
        removed = id ∷ r.removed;
        kept = r.kept;
        in_order = ap (λ l. id ∷ l) r.in_order;
        bound = omega (arith, r.bound);
        left = r.left;
        counted = λ n e. omega (arith, r.counted n e);
      }

  delete_or_stop-Removes :
      (remaining : ℕ) (id : Str) (names : List Str) (deleted : ℕ)
      (more : ℕ → ℕ → Run Replica ReplicationError ℕ) (s : Replica)
      → ((r d : ℕ) (t : Replica) → Removes names r d t (more r d t))
      → Removes
          (id ∷ names)
          remaining
          deleted
          s
          (delete_or_stop io src src_blobs remaining id deleted more s)
  delete_or_stop-Removes zero id names deleted more s h = record {
    removed = [];
    kept = id ∷ names;
    in_order = refl;
    bound = omega arith;
    left = refl;
    counted = λ n e. (ground arith, omega arith);
  }
  delete_or_stop-Removes (suc left) id names deleted more s h =
      removed_then (io.removal_refused id) id names left deleted (more left (suc deleted)) s
        (h left (suc deleted))

  mirror_loop-Removes :
      (versions : List VersionInfo) (names : Map Str FileOnDisk) (remaining deleted : ℕ)
      (s : Replica)
      → Removes
          (stale versions names)
          remaining
          deleted
          s
          (mirror_loop io src src_blobs versions names remaining deleted s)
  unfolding mirror_loop
  mirror_loop-Removes versions [] remaining deleted s = record {
    removed = [];
    kept = [];
    in_order = refl;
    bound = omega arith;
    left = refl;
    counted = λ n e. (ground arith, omega arith);
  }
  mirror_loop-Removes versions ((id, absent) ∷ names) remaining deleted s =
      mirror_loop-Removes versions names remaining deleted s
  mirror_loop-Removes versions ((id, irregular) ∷ names) remaining deleted s =
      mirror_loop-Removes versions names remaining deleted s
  mirror_loop-Removes versions ((id, file content) ∷ names) remaining deleted s =
      elim (Bool-cases (any (λ v. str_eq v.id id) versions)) [
        | inl listed ↦ rw listed (mirror_loop-Removes versions names remaining deleted s)
        | inr other ↦ rw other (
            delete_or_stop-Removes remaining id (stale versions names) deleted
              (mirror_loop io src src_blobs versions names) s
              (λ r d t. mirror_loop-Removes versions names r d t))
      ]

  -- Whichever removals are refused, mirroring removes the first of the replica's manifest files that
  -- no version of the index has, at most as many as a cycle may, and changes nothing else of the
  -- replica. If it succeeds, it has removed that many, or all of them if there are fewer, and returns
  -- how many.
  pub mirror_manifest_deletions-Removes :
      (max_deletes : ℕ) (index : VersionIndex) (s : Replica)
      → Removes
          (stale index.versions s.dir.manifests)
          max_deletes
          0
          s
          (mirror_manifest_deletions io src src_blobs max_deletes index s)
  unfolding mirror_manifest_deletions
  mirror_manifest_deletions-Removes zero index s = record {
    removed = [];
    kept = stale index.versions s.dir.manifests;
    in_order = refl;
    bound = omega arith;
    left = refl;
    counted = λ n e. (ground arith, omega arith);
  }
  mirror_manifest_deletions-Removes (suc left) index s =
      mirror_loop-Removes index.versions s.dir.manifests (suc left) 0 s
