-- ===== src/Versioned/Blobs/Written.antt =====
-- The store's blobs before and after `write_blob` (store.rs).
use mathlib.Core.Path.{subst}
use backup_sync.Prelude.{
  ℕ, zero, suc, ◌+◌, ◌≡◌, refl, sym, Bool, true, false, ◌&&◌, Option, none, some, ltb, ap, ◌∙◌, Str,
  In, str_eq, str_eq_iff, length, Result, ok, err, bail_if, Bool-cases, Result-cases, arith, inl,
  inr,
}
use backup_sync.Map.{
  Map, insert, contains_key, str_key, pair_key, In-insert, contains_key-insert, pair_beq_iff,
}
use backup_sync.Versioned.Disk.{
  Disk, StoreError, Hashing, blob_path, blob_exists, is_lower_hex_sha256, io_failed,
}
use backup_sync.Versioned.Exec.{Exec, Outcome, Hoare, proceed, pure, lift, effect, ◌>>◌}
use backup_sync.Versioned.Blobs.{
  BlobIo, next_attempt, attempt_exec, validate_expected_blob_hash, write_blob_once, write_blob,
  checked_digest, verify_encoded,
}

-- Every blob file decodes to a plaintext whose digest is the file's name.
abbrev pub BlobsOk : Hashing → Map (Str × Str) Str → Type 0
BlobsOk hashing blobs =
    (k : Str × Str) (b : Str) → In (k, b) blobs → hashing.sha256_plaintext_blob b ≡ ok k.1

-- From one disk to a later one: the blobs that were there are there, and nothing but blobs is
-- added.
pub record Grown (hashing : Hashing) (d e : Disk) : Type 0 where
  pub same_sources : e.sources ≡ d.sources
  pub blobs_stay : (k : Str × Str) → contains_key k d.blobs ≡ true → contains_key k e.blobs ≡ true
  pub blobs_ok : BlobsOk hashing e.blobs

pub Grown-refl : (hashing : Hashing) (d : Disk) → BlobsOk hashing d.blobs → Grown hashing d d
Grown-refl hashing d ok_d = record { same_sources = refl; blobs_stay = λ k h. h; blobs_ok = ok_d }

pub Grown-trans :
    (hashing : Hashing) (a b c : Disk) → Grown hashing a b → Grown hashing b c → Grown hashing a c
Grown-trans hashing a b c g h = record {
  same_sources = h.same_sources ∙ g.same_sources;
  blobs_stay = λ k p. h.blobs_stay k (g.blobs_stay k p);
  blobs_ok = h.blobs_ok;
}

BlobsOk-insert :
    (hashing : Hashing) (p k : Str × Str) (b c : Str) (blobs : Map (Str × Str) Str)
    → BlobsOk hashing blobs
    → hashing.sha256_plaintext_blob b ≡ ok p.1
    → In (k, c) (insert p b blobs)
    → hashing.sha256_plaintext_blob c ≡ ok k.1
BlobsOk-insert hashing p k b c blobs ok_blobs digest h = elim (In-insert p b blobs (k, c) h) [
  | inl same ↦
      subst (λ (t : (Str × Str) × Str). hashing.sha256_plaintext_blob t.1 ≡ ok t.0.1) (sym same)
        digest
  | inr old ↦ ok_blobs k c old
]

pub Grown-insert :
    (hashing : Hashing) (d e : Disk) (p : Str × Str) (b : Str)
    → Grown hashing d e
    → hashing.sha256_plaintext_blob b ≡ ok p.1
    → Grown hashing d (record e { blobs = insert p b e.blobs })
Grown-insert hashing d e p b g digest = record {
  same_sources = g.same_sources;
  blobs_stay = λ k h. ground (arith, contains_key-insert p k b e.blobs, g.blobs_stay k h);
  blobs_ok = λ k c h. BlobsOk-insert hashing p k b c e.blobs g.blobs_ok digest h;
}

-- Retrying keeps what each attempt keeps, and gives what each success gives.
module _ {A : Type 0} (timeout_seconds : ℕ) (elapsed : ℕ → ℕ) (op : ℕ → Exec A) (P : Disk → Type 0)
    (Q : Disk → Type 0) (each : (i : ℕ) → Hoare P (op i) (λ v. Q) P) where
  retried :
      (rounds from : ℕ) (r : Result StoreError A) (e : Disk)
      → Outcome (λ v. Q) P r e
      → ((x : StoreError)
          → Hoare P (attempt_exec timeout_seconds elapsed op rounds (from + 1) (some x)) (λ v. Q) P)
      → Outcome
          (λ v. Q)
          P
          (next_attempt timeout_seconds elapsed op from
            (λ x. attempt_exec timeout_seconds elapsed op rounds (from + 1) (some x))
            r
            e).0
          (next_attempt timeout_seconds elapsed op from
            (λ x. attempt_exec timeout_seconds elapsed op rounds (from + 1) (some x))
            r
            e).1
  retried rounds from (ok v) e h ih = h
  retried rounds from (err x) e h ih = (ih x).run e h

  pub attempt_exec-Hoare :
      (rounds from : ℕ) (last : Option StoreError)
      → Hoare P (attempt_exec timeout_seconds elapsed op rounds from last) (λ v. Q) P
  unfolding attempt_exec
  attempt_exec-Hoare zero from last = record { run = λ d p. p }
  attempt_exec-Hoare (suc rounds) from last = record {
    run = λ d p. elim (Bool-cases (ltb 0 timeout_seconds && ltb timeout_seconds (elapsed from))) [
      | inl late ↦ rw late p
      | inr in_time ↦ rw in_time (
          retried rounds from (op from d).0 (op from d).1 ((each from).run d p)
            (λ x. attempt_exec-Hoare rounds (from + 1) (some x)))
    ];
  }

module _ (hashing : Hashing) (io : BlobIo) (timeout_seconds retries : ℕ) (start : Disk) where
  -- The blobs of the start are there, and all are well formed.
  abbrev pub Kept : Disk → Type 0
  Kept d = Grown hashing start d

  abbrev pub Has : Str → Disk → Type 0
  Has expected d = Kept d × (blob_exists hashing d expected ≡ true)

  checked_digest-ok :
      (expected encoded b : Str) (r : Result StoreError Str)
      → hashing.sha256_plaintext_blob encoded ≡ r
      → checked_digest hashing io timeout_seconds retries expected encoded r ≡ ok b
      → hashing.sha256_plaintext_blob b ≡ ok expected
  checked_digest-ok expected encoded b (err e) q h = cc
  checked_digest-ok expected encoded b (ok actual) q h =
      elim (Bool-cases (str_eq actual expected)) [
        | inl same ↦
            let it : encoded ≡ b = ground (arith, same, h) in
            subst (λ t. hashing.sha256_plaintext_blob t ≡ ok expected) it
              (q ∙ ap ok ((str_eq_iff actual expected).0 same))
        | inr other ↦ absurd (ground (arith, other, h))
      ]

  verify_encoded-ok :
      (expected b : Str) (r : Result StoreError Str)
      → verify_encoded hashing io timeout_seconds retries expected r ≡ ok b
      → hashing.sha256_plaintext_blob b ≡ ok expected
  verify_encoded-ok expected b (err e) h = cc
  verify_encoded-ok expected b (ok encoded) h =
      checked_digest-ok expected encoded b (hashing.sha256_plaintext_blob encoded) refl h

  insert_blob :
      (expected encoded : Str) (d : Disk)
      → str_eq (blob_path hashing expected).1 expected ≡ true
      → hashing.sha256_plaintext_blob encoded ≡ ok expected
      → Kept d
      → Has expected (record d { blobs = insert (blob_path hashing expected) encoded d.blobs })
  insert_blob expected encoded d name digest k =
      let path = blob_path hashing expected in
      let file : path.1 ≡ expected = (str_eq_iff path.1 expected).0 name in
      (
        Grown-insert hashing start d path encoded k (digest ∙ ap ok (sym file)),
        ground
            (arith, contains_key-insert path path encoded d.blobs, (pair_beq_iff path path).1 refl),
      )

  -- The part after the checks, over what the machine answers.
  persisted :
      (src expected encoded : Str) (refused unsynced : Bool) (d : Disk)
      → str_eq (blob_path hashing expected).1 expected ≡ true
      → hashing.sha256_plaintext_blob encoded ≡ ok expected
      → Kept d
      → let r =
          (effect refused
                (io_failed src)
                (λ e. record e { blobs = insert (blob_path hashing expected) encoded e.blobs })
              >> (lift (bail_if unsynced (io_failed src)) >> pure (length encoded)))
            d in
        Outcome (λ (n : ℕ). Has expected) Kept r.0 r.1
  persisted src expected encoded true unsynced d name digest k = k
  persisted src expected encoded false true d name digest k =
      (insert_blob expected encoded d name digest k).0
  persisted src expected encoded false false d name digest k =
      insert_blob expected encoded d name digest k

  write_blob_once-Hoare :
      (src expected : Str) (i : ℕ)
      → Hoare Kept
          (write_blob_once hashing io timeout_seconds retries src expected i)
          (λ n. Has expected)
          Kept
  unfolding write_blob_once validate_expected_blob_hash
  write_blob_once-Hoare src expected i = record {
    run = λ d k.
        elim (Bool-cases
          (is_lower_hex_sha256 expected && str_eq (blob_path hashing expected).1 expected)) [
            | inr wrong ↦ rw wrong k
            | inl valid ↦ elim (Bool-cases (io.late src i)) [
              | inl late ↦ rw (valid, late) k
              | inr in_time ↦
                  elim (Result-cases (
                    verify_encoded hashing io timeout_seconds retries expected (io.encode src i))) [
                      | inr (e, failed) ↦ rw (valid, in_time, failed) k
                      | inl (encoded, done) ↦
                          rw (valid, in_time, done)
                            (persisted src expected encoded (io.persist_refused src i)
                              (io.sync_refused src i) d (ground (arith, valid))
                              (verify_encoded-ok expected encoded (io.encode src i) done) k)
                    ]
            ]
          ];
  }

  -- After the retries.
  counted :
      (expected : Str) (r : Result StoreError (ℕ × ℕ)) (d : Disk)
      → Outcome (λ (v : ℕ × ℕ). Has expected) Kept r d
      → let s = proceed {B = ℕ × ℕ} r (λ (v : ℕ × ℕ). pure (1, v.0)) d in
        Outcome (λ (v : ℕ × ℕ). Has expected) Kept s.0 s.1
  counted expected (ok v) d h = h
  counted expected (err e) d h = h

  -- Whatever fails, the blobs of the start are there and each decodes to the content that its name
  -- tells; if the write returns a count, the expected blob is there.
  pub write_blob-Hoare :
      (src expected : Str)
      → Hoare Kept
          (write_blob hashing io timeout_seconds retries src expected)
          (λ n. Has expected)
          Kept
  unfolding write_blob validate_expected_blob_hash
  write_blob-Hoare src expected = record {
    run = λ d k.
        elim (Bool-cases
          (is_lower_hex_sha256 expected && str_eq (blob_path hashing expected).1 expected)) [
            | inr wrong ↦ rw wrong k
            | inl valid ↦ elim (Bool-cases (io.mkdir_refused expected)) [
              | inl refused ↦ rw (valid, refused) k
              | inr made ↦
                  let r =
                    attempt_exec timeout_seconds (io.elapsed src)
                      (write_blob_once hashing io timeout_seconds retries src expected)
                      (retries + 1) 0 none d in
                  rw (valid, made)
                    (counted expected r.0 r.1 (
                      (attempt_exec-Hoare timeout_seconds (io.elapsed src)
                          (write_blob_once hashing io timeout_seconds retries src expected) Kept
                          (Has expected) (write_blob_once-Hoare src expected) (retries + 1) 0
                          none).run
                        d k))
            ]
          ];
  }
