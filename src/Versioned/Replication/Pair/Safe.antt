-- ===== src/Versioned/Replication/Pair/Safe.antt =====
-- The publication of an index by crates/core/src/backup/versioned/replication.rs, and the removals
-- after it.
use mathlib.Core.Path.{subst}
use backup_sync.Prelude.{
  ℕ, zero, suc, ◌≡◌, refl, sym, ap, ◌∙◌, ◌⊎◌, inl, inr, Bool, true, false, Bool-cases, none, some,
  List, [], ◌∷◌, Str, str_eq, str_eq_iff, any, All, Result, ok, err, arith,
}
use backup_sync.Prelude.Run.{
  Run, lift, gets, ◌>>=◌, Outcome, Triple, Triple-bind, Triple-pure, gets-Outcome,
}
use backup_sync.Map.{Map, get, remove, get-remove, str_key}
use backup_sync.Versioned.Model.{VersionInfo, VersionIndex}
use backup_sync.Versioned.Replication.{
  ReplicationError, FileOnDisk, absent, irregular, file, SourceFiles, or_absent, regular_file_state,
  VersionReplicationPlan, manifest_at, build_replication_plans, validate_replication_plans,
}
use backup_sync.Versioned.Replication.Pair.{
  removed_file, delete_or_stop, mirror_entry, mirror_loop, mirror_manifest_deletions, mirrored,
  read_index_json, checked_replica, publish, replicate_index, replicate_source,
}
use backup_sync.Versioned.Replication.Replica.{
  ReplicaIo, MirrorConfig, PairCounters, Replica, copied_file, copy_file_atomic, put_index,
  counted_bytes, unlisted, is_regular_file,
}
use backup_sync.Versioned.Replication.Pair.Published.{IsCopied, versions-IsCopied}
use backup_sync.Versioned.Replication.Pair.Kept.{
  Keeps, Keeps-bind, Keeps-weaken, gets-Keeps, copy_plans-Keeps, copy_report-Keeps,
}

manifest_after_removal :
    (dir : SourceFiles) (id other : Str)
    → str_eq other id ≡ false
    → or_absent (get other (remove id dir.manifests)) ≡ manifest_at dir other
manifest_after_removal dir id other h = elim (Bool-cases (str_eq id other)) [
  | inl same ↦
      let e : id ≡ other = (str_eq_iff id other).0 same in
      let t : str_eq other id ≡ true = (str_eq_iff other id).1 (sym e) in
      absurd (ground (arith, t, h))
  | inr differ ↦
      let kept : get other (remove id dir.manifests) ≡ get other dir.manifests =
        get-remove id other dir.manifests ∙ rw differ refl in
      ap or_absent kept
]

Triple-lift :
    {A B : Type 0} {R : B → Replica → Type 0} (P F : Replica → Type 0)
    (r : Result ReplicationError A) (f : A → Run Replica ReplicationError B)
    → ((s : Replica) → P s → F s)
    → ((a : A) → r ≡ ok a → Triple P (f a) R F)
    → Triple P (lift r >>= f) R F
Triple-lift P F (ok a) f h k = record { run = (k a refl).run }
Triple-lift P F (err e) f h k = record { run = h }

module _ (io : ReplicaIo) (src : SourceFiles) (src_blobs : Map (Str × Str) FileOnDisk) where
  abbrev without : Str → SourceFiles → SourceFiles
  without id dir = record dir { manifests = remove id dir.manifests }

  -- The replica has the version as the source has it, and can restore it.
  abbrev pub IsReplicated : Replica → Str → Type 0
  IsReplicated s id = IsCopied io.hashing io.parse_manifest src s.dir s.blobs id

  IsReplicated-remove :
      (versions : List VersionInfo) (id : Str) (s : Replica)
      → any (λ v. str_eq v.id id) versions ≡ false
      → All (λ v. IsReplicated s v.id) versions
      → All (λ v. IsReplicated (record s { dir = without id s.dir }) v.id) versions
  IsReplicated-remove [] id s h a = tt
  IsReplicated-remove (v ∷ versions) id s h (first, rest) =
      let differ : str_eq v.id id ≡ false = ground (arith, h) in
      let others : any (λ v. str_eq v.id id) versions ≡ false = ground (arith, h) in
      (
        rw (manifest_after_removal s.dir id v.id differ) first,
        IsReplicated-remove versions id s others rest,
      )

  -- The replica's index is the source's, and all that it lists is replicated.
  unfoldable pub IsPublished : VersionIndex → Replica → Type 0
  IsPublished index s = (s.dir.index ≡ src.index) × All (λ v. IsReplicated s v.id) index.versions

  removed_file-Keeps :
      (index : VersionIndex) (refused : Bool) (id : Str)
      → any (λ v. str_eq v.id id) index.versions ≡ false
      → Keeps (IsPublished index) (removed_file io src src_blobs refused id)
  unfolding IsPublished
  removed_file-Keeps index true id h = record { run = λ s p. p }
  removed_file-Keeps index false id h = record {
    run = λ s (same, all). (same, IsReplicated-remove index.versions id s h all);
  }

  delete_or_stop-Keeps :
      (index : VersionIndex) (remaining : ℕ) (id : Str) (deleted : ℕ)
      (more : ℕ → ℕ → Run Replica ReplicationError ℕ)
      → any (λ v. str_eq v.id id) index.versions ≡ false
      → ((r d : ℕ) → Keeps (IsPublished index) (more r d))
      → Keeps (IsPublished index) (delete_or_stop io src src_blobs remaining id deleted more)
  delete_or_stop-Keeps index zero id deleted more h k =
      Triple-pure (IsPublished index) _ (IsPublished index) deleted (λ s p. p)
  delete_or_stop-Keeps index (suc left) id deleted more h k =
      Keeps-bind (IsPublished index) _ _ (removed_file-Keeps index (io.removal_refused id) id h)
        (λ _. k left (suc deleted))

  mirror_entry-Keeps :
      (index : VersionIndex) (is_regular : Bool) (remaining : ℕ) (id : Str) (deleted : ℕ)
      (more : ℕ → ℕ → Run Replica ReplicationError ℕ)
      → ((r d : ℕ) → Keeps (IsPublished index) (more r d))
      → Keeps (IsPublished index) (
          mirror_entry io src src_blobs
            (unlisted is_regular index.versions id)
            remaining
            id
            deleted
            more)
  mirror_entry-Keeps index false remaining id deleted more k = k remaining deleted
  mirror_entry-Keeps index true remaining id deleted more k =
      elim (Bool-cases (any (λ v. str_eq v.id id) index.versions)) [
        | inl listed ↦ rw listed (k remaining deleted)
        | inr other ↦ rw other (delete_or_stop-Keeps index remaining id deleted more other k)
      ]

  mirror_loop-Keeps :
      (index : VersionIndex) (names : Map Str FileOnDisk) (remaining deleted : ℕ)
      → Keeps
          (IsPublished index)
          (mirror_loop io src src_blobs index.versions names remaining deleted)
  unfolding mirror_loop
  mirror_loop-Keeps index [] remaining deleted =
      Triple-pure (IsPublished index) _ (IsPublished index) deleted (λ s p. p)
  mirror_loop-Keeps index ((id, f) ∷ names) remaining deleted =
      mirror_entry-Keeps index (is_regular_file f) remaining id deleted
        (mirror_loop io src src_blobs index.versions names)
        (λ r d. mirror_loop-Keeps index names r d)

  mirror_manifest_deletions-Keeps :
      (index : VersionIndex) (max_deletes : ℕ)
      → Keeps (IsPublished index) (mirror_manifest_deletions io src src_blobs max_deletes index)
  unfolding mirror_manifest_deletions
  mirror_manifest_deletions-Keeps index zero =
      Triple-pure (IsPublished index) _ (IsPublished index) 0 (λ s p. p)
  mirror_manifest_deletions-Keeps index (suc left) = record {
    run = λ s p. (mirror_loop-Keeps index s.dir.manifests (suc left) 0).run s p;
  }

  mirrored-Keeps :
      (cfg : MirrorConfig) (index : VersionIndex) (pair : PairCounters) (mirror : Bool)
      → Keeps (IsPublished index) (mirrored io src src_blobs cfg index pair mirror)
  mirrored-Keeps cfg index pair false =
      Triple-pure (IsPublished index) _ (IsPublished index) pair (λ s p. p)
  mirrored-Keeps cfg index pair true =
      Keeps-bind (IsPublished index) _ _ (mirror_manifest_deletions-Keeps index cfg.max_deletes)
        (λ deleted. Triple-pure (IsPublished index) _ (IsPublished index) _ (λ s p. p))

  -- Before the publication the replica's index is as it was; after it, it is published.
  unfoldable pub IsSafe : FileOnDisk → VersionIndex → Replica → Type 0
  IsSafe before index s = (s.dir.index ≡ before) ⊎ IsPublished index s

  same-IsSafe :
      (before : FileOnDisk) (index : VersionIndex) (s : Replica)
      → s.dir.index ≡ before
      → IsSafe before index s
  unfolding IsSafe
  same-IsSafe before index s e = inl e

  IsPublished-IsSafe :
      (before : FileOnDisk) (index : VersionIndex) (s : Replica)
      → IsPublished index s
      → IsSafe before index s
  unfolding IsSafe
  IsPublished-IsSafe before index s p = inr p

  copied_index :
      (before : FileOnDisk) (index : VersionIndex) (refused : Bool) (f : FileOnDisk)
      → f ≡ src.index
      → Triple {E = ReplicationError}
          (λ s. (s.dir.index ≡ before) × All (λ v. IsReplicated s v.id) index.versions)
          (copied_file refused f put_index)
          (λ bytes. IsPublished index)
          (IsSafe before index)
  unfolding IsSafe IsPublished
  copied_index before index true f e = record { run = λ s (p, a). inl p }
  copied_index before index false absent e = record { run = λ s (p, a). inl p }
  copied_index before index false irregular e = record { run = λ s (p, a). inl p }
  copied_index before index false (file none) e = record { run = λ s (p, a). inl p }
  copied_index before index false (file (some raw)) e = record { run = λ s (p, a). (e, a) }

  -- The check before the publication.
  checked_again :
      (before : FileOnDisk) (index : VersionIndex) (plans : List VersionReplicationPlan)
      → build_replication_plans io.hashing io.parse_manifest src src_blobs index.versions ≡ ok plans
      → Triple
          (λ s. s.dir.index ≡ before)
          (gets (λ s.
            validate_replication_plans io.hashing io.parse_manifest src src_blobs s.dir s.blobs
              plans))
          (λ u s. (s.dir.index ≡ before) × All (λ v. IsReplicated s v.id) index.versions)
          (IsSafe before index)
  unfolding IsSafe
  checked_again before index plans b = record {
    run = λ s p.
        gets-Outcome (λ u t. (t.dir.index ≡ before) × All (λ v. IsReplicated t v.id) index.versions)
          (IsSafe before index)
          (validate_replication_plans io.hashing io.parse_manifest src src_blobs s.dir s.blobs
            plans)
          s
          (λ u e. (
            p,
            versions-IsCopied io.hashing io.parse_manifest src src_blobs s.dir s.blobs
                index.versions plans b e,
          ))
          (inl p);
  }

  publish-IsSafe :
      (cfg : MirrorConfig) (before : FileOnDisk) (index : VersionIndex)
      (plans : List VersionReplicationPlan) (pair : PairCounters)
      → build_replication_plans io.hashing io.parse_manifest src src_blobs index.versions ≡ ok plans
      → Triple
          (λ s. s.dir.index ≡ before)
          (publish io src src_blobs cfg index plans pair)
          (λ counters. IsPublished index)
          (IsSafe before index)
  unfolding copy_file_atomic
  publish-IsSafe cfg before index plans pair b =
      Triple-bind _ _ (checked_again before index plans b) (λ _.
        Triple-bind _ _ (copied_index before index io.index_refused src.index refl) (λ bytes.
          Keeps-weaken (IsPublished index) (IsSafe before index) _ (IsPublished-IsSafe before index)
            (mirrored-Keeps cfg index (counted_bytes bytes pair) cfg.mirror_manifests)))

  whole :
      (cfg : MirrorConfig) (pair : PairCounters) (index : VersionIndex) (before : FileOnDisk)
      → read_index_json io src src_blobs src.index ≡ ok index
      → Triple
          (λ s. s.dir.index ≡ before)
          (replicate_source io src src_blobs cfg pair)
          (λ counters. IsPublished index)
          (IsSafe before index)
  unfolding replicate_source
  whole cfg pair index before e =
      let P : Replica → Type 0 = λ s. s.dir.index ≡ before in
      let F : Replica → Type 0 = IsSafe before index in
      let old = same-IsSafe before index in
      let planned =
        build_replication_plans io.hashing io.parse_manifest src src_blobs index.versions in
      Triple-lift P F (read_index_json io src src_blobs src.index) _ old (λ found q.
        let same : found ≡ index = cc in
        subst
          (λ i. Triple P (replicate_index io src src_blobs cfg pair i) (λ c. IsPublished index) F)
          (sym same)
          (Triple-bind _ _
            (Keeps-weaken P F _ old (gets-Keeps P (λ s. regular_file_state s.dir.index)))
            (λ state.
              Triple-bind _ _
                (Keeps-weaken P F _ old
                  (gets-Keeps P (λ s. checked_replica io src src_blobs s state)))
                (λ _. Triple-lift P F planned _ old (λ plans b.
                  Triple-bind _ _
                    (Keeps-weaken P F _ old (
                      copy_plans-Keeps io src src_blobs P (λ id f s p. p) (λ path f s p. p)
                        (λ f s p. p) plans pair))
                    (λ copied.
                      Triple-bind _ _
                        (Keeps-weaken P F _ old (
                          copy_report-Keeps io src src_blobs P (λ id f s p. p) (λ path f s p. p)
                            (λ f s p. p) copied))
                        (λ reported. publish-IsSafe cfg before index plans reported b)))))))

  -- Replicating a source whose index can be read and is accepted, whatever the replica holds and
  -- whichever writes and removals fail: if it succeeds, the replica's index is the source's, and
  -- for each version that it lists the replica has the source's manifest, byte for byte, and for
  -- each file of that manifest a blob that decodes to the content that its hash names. If it fails,
  -- the same holds, or the replica's index is as it was.
  pub replicate_source-IsPublished :
      (cfg : MirrorConfig) (pair : PairCounters) (index : VersionIndex) (s : Replica)
      → read_index_json io src src_blobs src.index ≡ ok index
      → Outcome
          (λ counters. IsPublished index)
          (IsSafe s.dir.index index)
          (replicate_source io src src_blobs cfg pair s).0
          (replicate_source io src src_blobs cfg pair s).1
  unfolding replicate_source
  replicate_source-IsPublished cfg pair index s e = (whole cfg pair index s.dir.index e).run s refl
