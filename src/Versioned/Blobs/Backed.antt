-- ===== src/Versioned/Blobs/Backed.antt =====
-- The files of a manifest and their blobs, through `write_missing_blobs_for_snapshot` (store.rs).
use mathlib.Core.Path.{subst}
use backup_sync.Prelude.{
  ℕ, ◌+◌, ◌≡◌, refl, sym, true, false, Option, none, some, List, [], ◌∷◌, ap, ◌∙◌, Str, Result, ok,
  err, In, Bool-cases, arith, inl, inr,
}
use backup_sync.Map.{Map, get, str_key, pair_key, get-In}
use backup_sync.Versioned.Model.{ManifestEntry, Manifest, is_file}
use backup_sync.Versioned.Disk.{Disk, StoreError, Hashing, blob_exists}
use backup_sync.Versioned.Exec.{Outcome}
use backup_sync.Versioned.Scan.Snapshot.{entries_of}
use backup_sync.Versioned.Scan.Entries.{IsCoherent, insert-IsCoherent, remove-IsCoherent}
use backup_sync.Versioned.Blobs.{
  BlobIo, Pass, write_blob, written_blob, write_hash, write_entry, write_missing_blobs,
  file_rel_paths, fail_entry, blob_failure, put_back, write_missing_blobs_for_snapshot,
}
use backup_sync.Versioned.Blobs.Written.{
  Grown, Grown-refl, Grown-trans, BlobsOk, Kept, Has, write_blob-Hoare,
}
use backup_sync.Versioned.Blobs.Entries.{
  IsBacked, HasBlob_grown, BackedBut, but_grown, but_insert, but_remove, but_done,
}

-- How a pass stands before the paths that are left.
record PassOk (hashing : Hashing) (start : Disk) (paths : List Str) (s : Pass) : Type 0 where
  grown : Grown hashing start s.disk
  coherent : IsCoherent s.snapshot.entries
  backed : BackedBut hashing s.disk s.snapshot.entries paths

module _ (hashing : Hashing) (io : BlobIo) (timeout_seconds retries : ℕ) (start : Disk)
    (prev : Option Manifest) (prev_coherent : IsCoherent (entries_of prev))
    (prev_backed : IsBacked hashing start (entries_of prev)) where
  put_back-PassOk :
      (r : Str) (paths : List Str) (s : Pass) (n : ℕ) (message : Str) (found : Option ManifestEntry)
      → get r (entries_of prev) ≡ found
      → PassOk hashing start (r ∷ paths) s
      → PassOk hashing start paths
          (fail_entry (blob_failure r n message) (put_back r found s.snapshot.entries) s)
  put_back-PassOk r paths s n message none q o = record {
    grown = o.grown;
    coherent = remove-IsCoherent r s.snapshot.entries o.coherent;
    backed = but_remove hashing s.disk s.snapshot.entries r paths o.backed;
  }
  put_back-PassOk r paths s n message (some x) q o = record {
    grown = o.grown;
    coherent =
        insert-IsCoherent r x s.snapshot.entries
          (prev_coherent.entries r x (get-In r x (entries_of prev) q)) o.coherent;
    backed =
        but_insert hashing s.disk s.snapshot.entries r x paths
          (HasBlob_grown hashing start s.disk x o.grown (prev_backed r x q)) o.backed;
  }

  moved-PassOk :
      (paths : List Str) (s : Pass) (d : Disk)
      → Grown hashing s.disk d
      → PassOk hashing start paths s
      → PassOk hashing start paths (record s { disk = d })
  moved-PassOk paths s d g o = record {
    grown = Grown-trans hashing start s.disk d o.grown g;
    coherent = o.coherent;
    backed = but_grown hashing s.disk d s.snapshot.entries paths g o.backed;
  }

  written-PassOk :
      (r : Str) (paths : List Str) (s : Pass) (e : ManifestEntry) (h : Str)
      (result : Result StoreError (ℕ × ℕ)) (d : Disk)
      → get r s.snapshot.entries ≡ some e
      → e.sha256 ≡ some h
      → Outcome
          (λ n. Has hashing io timeout_seconds retries s.disk h)
          (Kept hashing io timeout_seconds retries s.disk)
          result
          d
      → PassOk hashing start (r ∷ paths) s
      → PassOk hashing start paths
          (written_blob hashing io timeout_seconds retries prev r s result d)
  written-PassOk r paths s e h (ok (count, bytes)) d p q (g, has) o =
      let moved = moved-PassOk (r ∷ paths) s d g o in
      record {
        grown = moved.grown;
        coherent = o.coherent;
        backed =
            but_done hashing d s.snapshot.entries r paths
              (λ x px is.
                let same : e ≡ x = ground (arith, p, px) in
                (h, (ap (λ (t : ManifestEntry). t.sha256) (sym same) ∙ q, has)))
              moved.backed;
      }
  written-PassOk r paths s e h (err x) d p q g o =
      put_back-PassOk r paths (record s { disk = d }) (retries + 1) (io.render x)
        (get r (entries_of prev)) refl (moved-PassOk (r ∷ paths) s d g o)

  write_hash-PassOk :
      (r : Str) (paths : List Str) (s : Pass) (e : ManifestEntry) (known : Option Str)
      → get r s.snapshot.entries ≡ some e
      → e.sha256 ≡ known
      → PassOk hashing start (r ∷ paths) s
      → PassOk hashing start paths (write_hash hashing io timeout_seconds retries prev r s known)
  write_hash-PassOk r paths s e none p q o = record {
    grown = o.grown;
    coherent = remove-IsCoherent r s.snapshot.entries o.coherent;
    backed = but_remove hashing s.disk s.snapshot.entries r paths o.backed;
  }
  write_hash-PassOk r paths s e (some h) p q o = elim (Bool-cases (blob_exists hashing s.disk h)) [
    | inl there ↦ rw there (record {
      grown = o.grown;
      coherent = o.coherent;
      backed =
          but_done hashing s.disk s.snapshot.entries r paths
            (λ x px is.
              let same : e ≡ x = ground (arith, p, px) in
              (h, (ap (λ (t : ManifestEntry). t.sha256) (sym same) ∙ q, there)))
            o.backed;
    })
    | inr missing ↦ rw missing (
        written-PassOk r paths s e h (write_blob hashing io timeout_seconds retries r h s.disk).0
          (write_blob hashing io timeout_seconds retries r h s.disk).1 p q
          ((write_blob-Hoare hashing io timeout_seconds retries s.disk r h).run s.disk
            (Grown-refl hashing s.disk (o.grown).blobs_ok))
          o)
  ]

  write_entry-PassOk :
      (r : Str) (paths : List Str) (s : Pass) (found : Option ManifestEntry)
      → get r s.snapshot.entries ≡ found
      → PassOk hashing start (r ∷ paths) s
      → PassOk hashing start paths (write_entry hashing io timeout_seconds retries prev r s found)
  write_entry-PassOk r paths s none p o = record {
    grown = o.grown;
    coherent = o.coherent;
    backed =
        but_done hashing s.disk s.snapshot.entries r paths (λ x px. absurd (ground (arith, p, px)))
          o.backed;
  }
  write_entry-PassOk r paths s (some e) p o = write_hash-PassOk r paths s e e.sha256 p refl o

  write_missing_blobs-PassOk :
      (paths : List Str) (s : Pass)
      → PassOk hashing start paths s
      → PassOk hashing start []
          (write_missing_blobs hashing io timeout_seconds retries prev paths s)
  unfolding write_missing_blobs
  write_missing_blobs-PassOk [] s o = o
  write_missing_blobs-PassOk (r ∷ paths) s o =
      write_missing_blobs-PassOk paths
        (write_entry hashing io timeout_seconds retries prev r s (get r s.snapshot.entries))
        (write_entry-PassOk r paths s (get r s.snapshot.entries) refl o)

  In-file_rel_paths :
      (k : Str) (e : ManifestEntry) (m : Map Str ManifestEntry)
      → In (k, e) m
      → is_file e.kind ≡ true
      → In e.rel_path (file_rel_paths hashing io timeout_seconds retries m)
  In-file_rel_paths k e [] p f = absurd p
  In-file_rel_paths k e ((j, x) ∷ m) (inl same) f =
      let it : e ≡ x = ap (λ (t : Str × ManifestEntry). t.1) same in
      let g : is_file x.kind ≡ true = sym (ap (λ (t : ManifestEntry). is_file t.kind) it) ∙ f in
      rw g (inl (ap (λ (t : ManifestEntry). t.rel_path) it))
  In-file_rel_paths k e ((j, x) ∷ m) (inr later) f =
      let rest = In-file_rel_paths k e m later f in
      elim (Bool-cases (is_file x.kind)) [ inl isf ↦ rw isf (inr rest) | inr dir ↦ rw dir rest ]

  -- Before the pass every file's path is to come.
  begin :
      (m : Map Str ManifestEntry) (d : Disk)
      → IsCoherent m
      → BackedBut hashing d m (file_rel_paths hashing io timeout_seconds retries m)
  begin m d c k e p = elim (Bool-cases (is_file e.kind)) [
    | inl isf ↦
        let there = get-In k e m p in
        inl (
          subst (λ t. In t (file_rel_paths hashing io timeout_seconds retries m))
            (c.entries k e there).0 (In-file_rel_paths k e m there isf))
    | inr dir ↦ inr (λ isf. absurd (ground (arith, dir, isf)))
  ]

  -- What the pass gives from a coherent manifest and well-formed blobs.
  pub record Materialized (s : Pass) : Type 0 where
    pub grown : Grown hashing start s.disk
    pub coherent : IsCoherent s.snapshot.entries
    pub backed : IsBacked hashing s.disk s.snapshot.entries

  finish : (s : Pass) → PassOk hashing start [] s → Materialized s
  finish s o = record {
    grown = o.grown;
    coherent = o.coherent;
    backed = λ k e p. elim (o.backed k e p) [ inl none_left ↦ absurd none_left | inr has ↦ has ];
  }

  -- Let each blob of the store decode to the content that its name tells, the candidate and the
  -- previous manifest be coherent, and each file of the previous one have its blob. Whichever
  -- reads, checks and writes fail, the pass returns a coherent manifest each of whose files has its
  -- blob on the disk, no blob of the store is lost, and each still decodes to what its name tells.
  pub write_missing_blobs_for_snapshot-Materialized :
      (snapshot : Manifest)
      → BlobsOk hashing start.blobs
      → IsCoherent snapshot.entries
      → Materialized
          (write_missing_blobs_for_snapshot hashing io timeout_seconds retries prev snapshot start)
  unfolding write_missing_blobs_for_snapshot
  write_missing_blobs_for_snapshot-Materialized snapshot ok_blobs c =
      let paths = file_rel_paths hashing io timeout_seconds retries snapshot.entries in
      let s : Pass = record {
        snapshot = snapshot;
        blobs_written = 0;
        bytes_written = 0;
        had_read_failures = false;
        disk = start;
      } in
      finish (write_missing_blobs hashing io timeout_seconds retries prev paths s) (
        write_missing_blobs-PassOk paths s (record {
          grown = Grown-refl hashing start ok_blobs;
          coherent = c;
          backed = begin snapshot.entries start c;
        }))
