-- ===== src/Versioned/Restore/Build/Written.antt =====
-- What writing one planned file of a restore (`write_file_atomic_from_blob`, `restore_mtime` of
-- restore.rs) does to the tree.
use mathlib.Core.Path.{subst}
use backup_sync.Prelude.{
  ℕ, ◌≡◌, refl, inl, inr, Bool, true, false, Option, none, some, [], arith, Str, str_eq, str_eq_iff,
  Result, ok, err, bail_if, bind_ok, Bool-cases,
}
use backup_sync.Prelude.Int.{ℤ, pos, int_le}
use backup_sync.Prelude.Run
use backup_sync.Prelude.Run.{Outcome, bind-Outcome, Outcome-map}
use backup_sync.Map.{get, pair_key}
use backup_sync.Codec.Blob.{BlobCipher, copy_blob_plaintext_to_writer}
use backup_sync.Versioned.Disk.{Disk}
use backup_sync.Versioned.Restore.{RestoreError, refused}
use backup_sync.Versioned.Restore.Request.{PlannedFile}
use backup_sync.Versioned.Restore.Tree.{
  Place, place_key, Node, directory, other, regular, FileTree, place_of, TreeIo, create_dir_all,
}
use backup_sync.Versioned.Restore.Build.{
  BlobReads, parent_of, set_time, restore_mtime, rename_over, place_plaintext, opened, decoded,
  checked_plaintext, write_file_atomic_from_blob, write_planned,
}
use backup_sync.Versioned.Restore.Build.Kept.{Nothing, Made, create_dir_all-Made}
use backup_sync.Versioned.Restore.Build.Changes.{
  Change, Change-refl, Change-trans, Dirs-Change, Holds, Holds-insert, time_of,
}

module _ (io : TreeIo) where
  rename_over-Holds :
      (p : Place) (content : Str) (t : FileTree) (o : Option Node)
      → get p t ≡ o
      → Outcome
          (λ x. Holds p t content none)
          Nothing
          (rename_over io p content t o).0
          (rename_over io p content t o).1
  rename_over-Holds p content t (some directory) e = tt
  rename_over-Holds p content t (some other) e = elim (Bool-cases (io.persist_refused p)) [
    | inl no_room ↦ rw no_room tt
    | inr room ↦ rw room (Holds-insert p content none t (λ d. cc))
  ]
  rename_over-Holds p content t (some (regular c m)) e = elim (Bool-cases (io.persist_refused p)) [
    | inl no_room ↦ rw no_room tt
    | inr room ↦ rw room (Holds-insert p content none t (λ d. cc))
  ]
  rename_over-Holds p content t none e = elim (Bool-cases (io.persist_refused p)) [
    | inl no_room ↦ rw no_room tt
    | inr room ↦ rw room (Holds-insert p content none t (λ d. cc))
  ]

  set_time-Holds :
      (p : Place) (content : Str) (time : ℤ × ℕ) (t : FileTree) (o : Option Node)
      → o ≡ some (regular content none)
      → get p t ≡ o
      → Outcome
          (λ x. Holds p t content (some time))
          Nothing
          (set_time io p time t o).0
          (set_time io p time t o).1
  set_time-Holds p content time t (some directory) e h = cc
  set_time-Holds p content time t (some other) e h = cc
  set_time-Holds p content time t none e h = cc
  set_time-Holds p content time t (some (regular c m)) e h =
      elim (Bool-cases (io.mtime_refused p)) [
        | inl no_right ↦ rw no_right tt
        | inr right ↦
            let same : c ≡ content = ground (arith, e) in
            rw (right, same) (Holds-insert p content (some time) t (λ d. cc))
      ]

  restore_mtime-Holds :
      (p : Place) (content : Str) (mtime_unix : ℤ) (mtime_nanos : ℕ) (t : FileTree)
      → get p t ≡ some (regular content none)
      → Outcome
          (λ x. Holds p t content (time_of mtime_unix mtime_nanos))
          Nothing
          (restore_mtime io p mtime_unix mtime_nanos t).0
          (restore_mtime io p mtime_unix mtime_nanos t).1
  unfolding restore_mtime
  restore_mtime-Holds p content mtime_unix mtime_nanos t e =
      elim (Bool-cases (int_le mtime_unix (pos 0))) [
        | inl unset ↦ rw unset (Change-refl p t, e)
        | inr set ↦ rw set (set_time-Holds p content (mtime_unix, mtime_nanos) t (get p t) e refl)
      ]

  module _ (reads : BlobReads) (store : Disk) (cipher : Option BlobCipher) where
    abbrev IsExpected : PlannedFile → Str → Type 0
    IsExpected pf content = reads.sha256_hex content ≡ pf.expected_sha256

    checked_plaintext-IsExpected :
        (pf : PlannedFile) (content : Str)
        → checked_plaintext io reads store cipher pf ≡ ok content
        → IsExpected pf content
    unfolding checked_plaintext
    checked_plaintext-IsExpected pf content e =
        let (c, at, rest) =
          bind_ok
            (decoded io reads store cipher (
              copy_blob_plaintext_to_writer reads.zstd reads.aead cipher
                (opened io reads store cipher pf.blob_path (get pf.blob_path store.blobs)) []))
            _ content e in
        elim (Bool-cases (str_eq (reads.sha256_hex c) pf.expected_sha256)) [
          | inl same ↦
              let it : c ≡ content = ground (arith, rest, same) in
              subst (IsExpected pf) it ((str_eq_iff _ _).0 same)
          | inr apart ↦ absurd (ground (arith, rest, apart))
        ]

    -- The file stands at its place, with the content that its digest tells and its time.
    abbrev pub IsWritten : PlannedFile → FileTree → Type 0
    IsWritten pf u =
        (content : Str) × ((get (place_of pf.rel_path) u
            ≡ some (regular content (time_of pf.mtime_unix pf.mtime_nanos)))
          × IsExpected pf content)

    -- The parent is made, or was there.
    pub parent_made :
        (p : Place) (t : FileTree)
        → Outcome
            (λ x. Change p t)
            Nothing
            (create_dir_all io (parent_of p) t).0
            (create_dir_all io (parent_of p) t).1
    parent_made p t =
        Outcome-map (Made (parent_of p) t) (λ x. Change p t) Nothing
          (create_dir_all io (parent_of p) t).0 (create_dir_all io (parent_of p) t).1
          (λ x g. Dirs-Change p t _ g.0) (create_dir_all-Made io (parent_of p) t)

    -- What is written with the checked content.
    unfoldable pub Placed : PlannedFile → Place → FileTree → Unit {0} → FileTree → Type 0
    Placed pf p t x u =
        (content : Str) × ((Change p t u × (get p u ≡ some (regular content none)))
          × IsExpected pf content)

    place-Placed :
        (pf : PlannedFile) (p : Place) (t u : FileTree) (r : Result RestoreError Str)
        → Change p t u
        → ((content : Str) → r ≡ ok content → IsExpected pf content)
        → Outcome
            (Placed pf p t)
            Nothing
            (Run.proceed r (place_plaintext io reads store cipher p) u).0
            (Run.proceed r (place_plaintext io reads store cipher p) u).1
    unfolding Placed
    place-Placed pf p t u (err e) g right = tt
    place-Placed pf p t u (ok content) g right =
        let m = rename_over io p content u (get p u) in
        Outcome-map (λ x. Holds p u content none) (Placed pf p t) Nothing m.0 m.1
          (λ x h. (content, ((Change-trans p t u _ g h.0, h.1), right content refl)))
          (rename_over-Holds p content u (get p u) refl)

    temp-Placed :
        (pf : PlannedFile) (p : Place) (t u : FileTree) (no_room : Bool)
        → Change p t u
        → let m =
            Run.proceed
              (bail_if no_room refused)
              (λ (x : Unit {0}).
                Run.◌>>=◌
                  (Run.lift (checked_plaintext io reads store cipher pf))
                  (place_plaintext io reads store cipher p))
              u in
          Outcome (Placed pf p t) Nothing m.0 m.1
    temp-Placed pf p t u true g = tt
    temp-Placed pf p t u false g =
        place-Placed pf p t u (checked_plaintext io reads store cipher pf) g
          (checked_plaintext-IsExpected pf)

    -- The file is in place, with the content that its digest tells.
    pub write_file_atomic_from_blob-Placed :
        (p : Place) (pf : PlannedFile) (t : FileTree)
        → let m = write_file_atomic_from_blob io reads store cipher p pf t in
          Outcome (Placed pf p t) Nothing m.0 m.1
    unfolding write_file_atomic_from_blob
    write_file_atomic_from_blob-Placed p pf t =
        bind-Outcome (λ x. Change p t) (Placed pf p t) Nothing (create_dir_all io (parent_of p)) _ t
          (parent_made p t) (λ x u g. temp-Placed pf p t u (io.temp_refused p) g)

    -- One planned file is written: the tree serves its place, and holds it there.
    pub write_planned-IsWritten :
        (pf : PlannedFile) (t : FileTree)
        → let m = write_planned io reads store cipher pf t in
          Outcome (λ x u. Change (place_of pf.rel_path) t u × IsWritten pf u) Nothing m.0 m.1
    unfolding write_planned Placed
    write_planned-IsWritten pf t =
        let p = place_of pf.rel_path in
        bind-Outcome (λ x. Change p t) (λ x u. Change p t u × IsWritten pf u) Nothing
          (create_dir_all io (parent_of p)) _ t (parent_made p t)
          (λ x u g.
            bind-Outcome (Placed pf p u) (λ y v. Change p t v × IsWritten pf v) Nothing
              (write_file_atomic_from_blob io reads store cipher p pf) _ u
              (write_file_atomic_from_blob-Placed p pf u)
              (λ y v (content, (h, right)).
                let m = restore_mtime io p pf.mtime_unix pf.mtime_nanos v in
                Outcome-map (λ z. Holds p v content (time_of pf.mtime_unix pf.mtime_nanos))
                  (λ z w. Change p t w × IsWritten pf w) Nothing m.0 m.1
                  (λ z k. (
                    Change-trans p t u _ g (Change-trans p u v _ h.0 k.0),
                    (content, (k.1, right)),
                  ))
                  (restore_mtime-Holds p content pf.mtime_unix pf.mtime_nanos v h.1)))
