-- ===== src/Versioned/Replication/Pair/Kept.antt =====
-- One source replicated by crates/core/src/backup/versioned/replication.rs: the replica's index, and
-- what it lists.
use backup_sync.Prelude.{ℕ, Bool, true, false, none, some, List, [], ◌∷◌, Str, Result, ok, err}
use backup_sync.Prelude.Run.{Run, lift, gets, ◌>>=◌, Outcome, Triple, Triple-bind, Triple-pure}
use backup_sync.Map.{Map, str_key}
use backup_sync.Versioned.Replication.{
  ReplicationError, FileOnDisk, absent, irregular, file, RegularFileState, missing, regular,
  SourceFiles, regular_file_state, BlobReplicationPlan, VersionReplicationPlan,
}
use backup_sync.Versioned.Replication.Pair.{
  copy_manifest_if, copy_manifest, repair_blob_if, repair_blobs, copy_plans, or_uncounted,
  copy_report_if, copy_report,
}
use backup_sync.Versioned.Replication.Replica.{
  ReplicaIo, PairCounters, Replica, copied_file, copy_file_atomic, put_manifest, put_blob,
  put_report, counted_manifest, counted_blob,
}

-- A change of the replica that keeps `P` of it whether it succeeds or fails.
abbrev pub Keeps : {A : Type 0} → (Replica → Type 0) → Run Replica ReplicationError A → Type 0
Keeps P m = Triple P m (λ a. P) P

kept :
    {A : Type 0} (P : Replica → Type 0) (r : Result ReplicationError A) (s : Replica)
    → P s
    → Outcome (λ a. P) P r s
kept P (ok a) s p = p
kept P (err e) s p = p

copied_file-Keeps :
    (P : Replica → Type 0) (refused : Bool) (src : FileOnDisk)
    (place : FileOnDisk → Replica → Replica)
    → ((f : FileOnDisk) (s : Replica) → P s → P (place f s))
    → Keeps P (copied_file refused src place)
copied_file-Keeps P true src place h = record { run = λ s p. p }
copied_file-Keeps P false absent place h = record { run = λ s p. p }
copied_file-Keeps P false irregular place h = record { run = λ s p. p }
copied_file-Keeps P false (file none) place h = record { run = λ s p. p }
copied_file-Keeps P false (file (some bytes)) place h = record {
  run = λ s p. h (file (some bytes)) s p;
}

pub gets-Keeps :
    {A : Type 0} (P : Replica → Type 0) (f : Replica → Result ReplicationError A) → Keeps P (gets f)
gets-Keeps P f = record { run = λ s p. kept P (f s) s p }

pub lift-Keeps :
    {A : Type 0} (P : Replica → Type 0) (r : Result ReplicationError A) → Keeps P (lift r)
lift-Keeps P r = record { run = λ s p. kept P r s p }

pub Keeps-bind :
    {A B : Type 0} (P : Replica → Type 0) (m : Run Replica ReplicationError A)
    (f : A → Run Replica ReplicationError B)
    → Keeps P m
    → ((a : A) → Keeps P (f a))
    → Keeps P (m >>= f)
Keeps-bind P m f h k = Triple-bind m f h k

weaken :
    {A : Type 0} (Q : A → Replica → Type 0) (F G : Replica → Type 0) (r : Result ReplicationError A)
    (s : Replica)
    → ((t : Replica) → F t → G t)
    → Outcome Q F r s
    → Outcome Q G r s
weaken Q F G (ok a) s h o = o
weaken Q F G (err e) s h o = h s o

pub Keeps-weaken :
    {A : Type 0} (P G : Replica → Type 0) (m : Run Replica ReplicationError A)
    → ((s : Replica) → P s → G s)
    → Keeps P m
    → Triple P m (λ a. P) G
Keeps-weaken P G m h k = record { run = λ s p. weaken (λ a. P) P G (m s).0 (m s).1 h (k.run s p) }

-- The steps before the publication keep every property that their writes keep.
module _ (io : ReplicaIo) (src : SourceFiles) (src_blobs : Map (Str × Str) FileOnDisk)
    (P : Replica → Type 0)
    (manifest : (id : Str) (f : FileOnDisk) (s : Replica) → P s → P (put_manifest id f s))
    (blob : (path : Str × Str) (f : FileOnDisk) (s : Replica) → P s → P (put_blob path f s))
    (report : (f : FileOnDisk) (s : Replica) → P s → P (put_report f s)) where
  copy_manifest_if-Keeps :
      (id : Str) (pair : PairCounters) (needs : Bool)
      → Keeps P (copy_manifest_if io src src_blobs id pair needs)
  unfolding copy_file_atomic
  copy_manifest_if-Keeps id pair false = Triple-pure P (λ a. P) P pair (λ s p. p)
  copy_manifest_if-Keeps id pair true =
      Keeps-bind P _ _
        (copied_file-Keeps P (io.manifest_refused id) _ (put_manifest id) (manifest id))
        (λ bytes. Triple-pure P (λ a. P) P (counted_manifest bytes pair) (λ s p. p))

  copy_manifest-Keeps :
      (id : Str) (pair : PairCounters) → Keeps P (copy_manifest io src src_blobs id pair)
  unfolding copy_manifest
  copy_manifest-Keeps id pair =
      Keeps-bind P _ _ (gets-Keeps P _) (λ needs. copy_manifest_if-Keeps id pair needs)

  repair_blob_if-Keeps :
      (plan : BlobReplicationPlan) (pair : PairCounters) (needs : Bool)
      → Keeps P (repair_blob_if io src src_blobs plan pair needs)
  unfolding copy_file_atomic
  repair_blob_if-Keeps plan pair false = Triple-pure P (λ a. P) P pair (λ s p. p)
  repair_blob_if-Keeps plan pair true =
      Keeps-bind P _ _
        (copied_file-Keeps P (io.blob_refused plan.expected_sha256) _ (put_blob plan.path)
          (blob plan.path))
        (λ bytes.
          Keeps-bind P _ _ (gets-Keeps P _)
            (λ _. Triple-pure P (λ a. P) P (counted_blob bytes pair) (λ s p. p)))

  repair_blobs-Keeps :
      (plans : List BlobReplicationPlan) (pair : PairCounters)
      → Keeps P (repair_blobs io src src_blobs plans pair)
  unfolding repair_blobs
  repair_blobs-Keeps [] pair = Triple-pure P (λ a. P) P pair (λ s p. p)
  repair_blobs-Keeps (plan ∷ plans) pair = Keeps-bind P _ _ (gets-Keeps P _) (λ needs.
      Keeps-bind P _ _ (repair_blob_if-Keeps plan pair needs)
        (λ next. repair_blobs-Keeps plans next))

  pub copy_plans-Keeps :
      (plans : List VersionReplicationPlan) (pair : PairCounters)
      → Keeps P (copy_plans io src src_blobs plans pair)
  unfolding copy_plans
  copy_plans-Keeps [] pair = Triple-pure P (λ a. P) P pair (λ s p. p)
  copy_plans-Keeps (plan ∷ plans) pair =
      Keeps-bind P _ _ (copy_manifest-Keeps plan.version_id pair) (λ next.
        Keeps-bind P _ _ (repair_blobs-Keeps plan.blobs next)
          (λ repaired. copy_plans-Keeps plans repaired))

  or_uncounted-Outcome :
      (pair : PairCounters) (r : Result ReplicationError ℕ) (s : Replica)
      → Outcome (λ a. P) P r s
      → Outcome
          (λ (a : PairCounters). P)
          P
          (or_uncounted io src src_blobs pair (r, s)).0
          (or_uncounted io src src_blobs pair (r, s)).1
  or_uncounted-Outcome pair (ok bytes) s p = p
  or_uncounted-Outcome pair (err e) s p = p

  copy_report_if-Keeps :
      (pair : PairCounters) (state : RegularFileState)
      → Keeps P (copy_report_if io src src_blobs pair state)
  unfolding copy_file_atomic
  copy_report_if-Keeps pair missing = Triple-pure P (λ a. P) P pair (λ s p. p)
  copy_report_if-Keeps pair regular = Keeps-bind P _ _ (gets-Keeps P _) (λ _. record {
    run = λ s p.
        let m = copied_file io.report_refused src.scan_report put_report in
        or_uncounted-Outcome pair (m s).0 (m s).1
          ((copied_file-Keeps P io.report_refused src.scan_report put_report report).run s p);
  })

  pub copy_report-Keeps : (pair : PairCounters) → Keeps P (copy_report io src src_blobs pair)
  unfolding copy_report
  copy_report-Keeps pair =
      Keeps-bind P _ _ (lift-Keeps P (regular_file_state src.scan_report))
        (λ state. copy_report_if-Keeps pair state)
