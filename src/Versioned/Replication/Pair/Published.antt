-- ===== src/Versioned/Replication/Pair/Published.antt =====
-- What the checks of crates/core/src/backup/versioned/replication.rs find before an index is published.
use mathlib.Core.Path.{subst}
use backup_sync.Prelude.{
  ◌≡◌, refl, sym, ap, ◌∙◌, Bool, true, false, not, Bool-cases, inl, inr, Option, none, some, List,
  [], ◌∷◌, Str, str_eq, str_eq_iff, All, Result, ok, err, bind_ok, bail_if, arith,
}
use backup_sync.Map.{Map}
use backup_sync.Versioned.Model.{VersionInfo, Manifest}
use backup_sync.Versioned.Disk.{Hashing}
use backup_sync.Versioned.Replication.{
  ReplicationError, FileOnDisk, absent, irregular, file, SourceFiles, regular_file_state,
  require_regular_file, or_bad, files_have_identical_contents, file_hashes, VersionReplicationPlan,
  manifest_at, blob_at, same_digest, require_plaintext_hash, require_blob, read_manifest_json,
  plan_blobs, build_replication_plans, validate_blob_hash, validate_hashes,
  validate_manifest_artifacts, validate_replication_plans,
}

files_identical :
    (l r : FileOnDisk)
    → files_have_identical_contents l r ≡ ok true
    → (raw : Str) × (l ≡ file (some raw)) × (r ≡ file (some raw))
unfolding files_have_identical_contents require_regular_file regular_file_state
files_identical absent r e = absurd (ground arith)
files_identical irregular r e = absurd (ground arith)
files_identical (file none) absent e = absurd (ground arith)
files_identical (file none) irregular e = absurd (ground arith)
files_identical (file none) (file c) e = absurd (ground arith)
files_identical (file (some a)) absent e = absurd (ground arith)
files_identical (file (some a)) irregular e = absurd (ground arith)
files_identical (file (some a)) (file none) e = absurd (ground arith)
files_identical (file (some a)) (file (some b)) e =
    let same : a ≡ b = (str_eq_iff a b).0 (ground (arith, e)) in
    (b, ap (λ t. file (some t)) same, refl)

not_refused : (b : Bool) (x : ReplicationError) (u : Unit {0}) → bail_if (not b) x ≡ ok u → b ≡ true
not_refused true x u e = refl
not_refused false x u e = absurd (ground arith)

module _ (hashing : Hashing) (parse_manifest : Str → Option Manifest) where
  -- The store holds the blob of this hash, and it decodes to the content that the hash names.
  abbrev pub IsHeld : Map (Str × Str) FileOnDisk → Str → Type 0
  IsHeld blobs hash =
      (bytes : Str) × (blob_at hashing parse_manifest blobs hash ≡ file (some bytes))
      × (hashing.sha256_plaintext_blob bytes ≡ ok hash)

  digest_found :
      {E : Type 0} (r : Result E Str) (hash : Str)
      → same_digest hashing parse_manifest r hash ≡ ok tt
      → r ≡ ok hash
  digest_found (ok actual) hash e = elim (Bool-cases (str_eq actual hash)) [
    | inl same ↦ ap ok ((str_eq_iff actual hash).0 same)
    | inr other ↦ absurd (ground (arith, other, e))
  ]
  digest_found (err x) hash e = absurd (ground arith)

  plaintext_found :
      (f : FileOnDisk) (hash : Str)
      → require_plaintext_hash hashing parse_manifest f hash ≡ ok tt
      → (bytes : Str) × (f ≡ file (some bytes)) × (hashing.sha256_plaintext_blob bytes ≡ ok hash)
  unfolding require_plaintext_hash
  plaintext_found absent hash e = absurd (ground arith)
  plaintext_found irregular hash e = absurd (ground arith)
  plaintext_found (file none) hash e = absurd (ground arith)
  plaintext_found (file (some bytes)) hash e =
      (bytes, refl, digest_found (hashing.sha256_plaintext_blob bytes) hash e)

  blob_found :
      (blobs : Map (Str × Str) FileOnDisk) (hash : Str)
      → require_blob hashing parse_manifest blobs hash ≡ ok tt
      → IsHeld blobs hash
  unfolding require_blob
  blob_found blobs hash e =
      let (u, c, e1) =
        bind_ok (require_regular_file (blob_at hashing parse_manifest blobs hash)) _ tt e in
      plaintext_found (blob_at hashing parse_manifest blobs hash) hash e1

  hashes_found :
      (blobs : Map (Str × Str) FileOnDisk) (hashes : List Str)
      → validate_hashes hashing parse_manifest blobs hashes ≡ ok tt
      → All (IsHeld blobs) hashes
  unfolding validate_hashes
  hashes_found blobs [] e = tt
  hashes_found blobs (hash ∷ hashes) e =
      let (u, c, e1) = bind_ok (validate_blob_hash hash) _ tt e in
      let (v, d, e2) = bind_ok (require_blob hashing parse_manifest blobs hash) _ tt e1 in
      (blob_found blobs hash d, hashes_found blobs hashes e2)

  -- The manifest file is there and parses, and each of its files has its blob.
  abbrev pub IsRestorable : FileOnDisk → Map (Str × Str) FileOnDisk → Type 0
  IsRestorable f blobs =
      (raw : Str) × (manifest : Manifest) × (f ≡ file (some raw))
      × (parse_manifest raw ≡ some manifest)
      × All (IsHeld blobs) (file_hashes manifest.entries)

  parsed : (o : Option Manifest) (m : Manifest) → or_bad o ≡ ok m → o ≡ some m
  parsed none m e = absurd (ground arith)
  parsed (some n) m e = cc

  manifest_read :
      (f : FileOnDisk) (m : Manifest)
      → read_manifest_json hashing parse_manifest f ≡ ok m
      → (raw : Str) × (f ≡ file (some raw)) × (parse_manifest raw ≡ some m)
  unfolding read_manifest_json
  manifest_read absent m e = absurd (ground arith)
  manifest_read irregular m e = absurd (ground arith)
  manifest_read (file none) m e = absurd (ground arith)
  manifest_read (file (some raw)) m e = (raw, refl, parsed (parse_manifest raw) m e)

  artifacts_found :
      (f : FileOnDisk) (blobs : Map (Str × Str) FileOnDisk)
      → validate_manifest_artifacts hashing parse_manifest f blobs ≡ ok tt
      → IsRestorable f blobs
  unfolding validate_manifest_artifacts
  artifacts_found f blobs e =
      let (u, c, e1) = bind_ok (require_regular_file f) _ tt e in
      let (m, d, e2) = bind_ok (read_manifest_json hashing parse_manifest f) _ tt e1 in
      let (raw, same, p) = manifest_read f m d in
      (raw, m, same, p, hashes_found blobs (file_hashes m.entries) e2)

  -- The replica has the source's manifest of the version, byte for byte, and can restore it.
  abbrev pub IsCopied : SourceFiles → SourceFiles → Map (Str × Str) FileOnDisk → Str → Type 0
  IsCopied src dst dst_blobs id =
      (manifest_at dst id ≡ manifest_at src id) × IsRestorable (manifest_at dst id) dst_blobs

  plans_found :
      (src : SourceFiles) (src_blobs : Map (Str × Str) FileOnDisk) (dst : SourceFiles)
      (dst_blobs : Map (Str × Str) FileOnDisk) (plans : List VersionReplicationPlan)
      → validate_replication_plans hashing parse_manifest src src_blobs dst dst_blobs plans ≡ ok tt
      → All (λ p. IsCopied src dst dst_blobs p.version_id) plans
  unfolding validate_replication_plans
  plans_found src src_blobs dst dst_blobs [] e = tt
  plans_found src src_blobs dst dst_blobs (plan ∷ plans) e =
      let l = manifest_at src plan.version_id in
      let r = manifest_at dst plan.version_id in
      let (same, c, e1) = bind_ok (files_have_identical_contents l r) _ tt e in
      let (u, d, e2) = bind_ok (bail_if (not same) _) _ tt e1 in
      let (v, f, e3) =
        bind_ok (validate_manifest_artifacts hashing parse_manifest l src_blobs) _ tt e2 in
      let (w, g, e4) =
        bind_ok (validate_manifest_artifacts hashing parse_manifest r dst_blobs) _ tt e3 in
      let (raw, a, b) = files_identical l r (c ∙ ap ok (not_refused same _ u d)) in
      ((b ∙ sym a, artifacts_found r dst_blobs g), plans_found src src_blobs dst dst_blobs plans e4)

  -- The plans are for the versions of the index, in order.
  ids_planned :
      (src : SourceFiles) (blobs : Map (Str × Str) FileOnDisk) (versions : List VersionInfo)
      (plans : List VersionReplicationPlan) (P : Str → Type 0)
      → build_replication_plans hashing parse_manifest src blobs versions ≡ ok plans
      → All (λ p. P p.version_id) plans
      → All (λ v. P v.id) versions
  unfolding build_replication_plans
  ids_planned src blobs [] plans P e h = tt
  ids_planned src blobs (version ∷ versions) plans P e h =
      let f = manifest_at src version.id in
      let (u, c, e1) = bind_ok (require_regular_file f) _ plans e in
      let (m, d, e2) = bind_ok (read_manifest_json hashing parse_manifest f) _ plans e1 in
      let (plan, g, e3) =
        bind_ok (plan_blobs hashing parse_manifest blobs [] (file_hashes m.entries)) _ plans e2 in
      let (rest, i, e4) =
        bind_ok (build_replication_plans hashing parse_manifest src blobs versions) _ plans e3 in
      let first : VersionReplicationPlan = record { version_id = version.id; blobs = plan } in
      let same : plans ≡ first ∷ rest = cc in
      let (h1, h2) = subst (All (λ p. P p.version_id)) same h in
      (h1, ids_planned src blobs versions rest P i h2)

  -- Plans that were made and validated are all the versions that the index lists, copied.
  pub versions-IsCopied :
      (src : SourceFiles) (src_blobs : Map (Str × Str) FileOnDisk) (dst : SourceFiles)
      (dst_blobs : Map (Str × Str) FileOnDisk) (versions : List VersionInfo)
      (plans : List VersionReplicationPlan)
      → build_replication_plans hashing parse_manifest src src_blobs versions ≡ ok plans
      → validate_replication_plans hashing parse_manifest src src_blobs dst dst_blobs plans ≡ ok tt
      → All (λ v. IsCopied src dst dst_blobs v.id) versions
  versions-IsCopied src src_blobs dst dst_blobs versions plans b v =
      ids_planned src src_blobs versions plans (IsCopied src dst dst_blobs) b
        (plans_found src src_blobs dst dst_blobs plans v)
