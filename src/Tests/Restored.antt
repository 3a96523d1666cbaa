-- ===== src/Tests/Restored.antt =====
-- A restore at concrete inputs: a directory with one file, over a target with another file.
use mathlib.Core.Path.{subst}
use backup_sync.Prelude.{
  ◌≡◌, refl, sym, ap, ◌∙◌, inl, inr, true, none, some, [], ◌∷◌, arith, In, Str, codes, length,
  length-append, Option, ok,
}
use backup_sync.Prelude.Int.{pos}
use backup_sync.Prelude.Run.{Outcome}
use backup_sync.Map.{get, insert, contains_key, get-In, str_key, pair_key}
use backup_sync.Codec.Encode.{sat_add}
use backup_sync.Codec.Blob.{sha256_plaintext_blob, copy_blob_plaintext_to_writer}
use backup_sync.Codec.Digest.{codec_hashing}
use backup_sync.Versioned.Model.{VersionInfo, ManifestEntry, Manifest, is_file}
use backup_sync.Versioned.Validation.{validate_version_id, is_ascii_alphanumeric, is_id_byte}
use backup_sync.Versioned.Disk.{
  Disk, SourceStore, index_file, source_of, blob_path, blob_exists, is_lower_hex_sha256,
  is_lower_hex_byte,
}
use backup_sync.Versioned.Scan.Entries.{EntryOk, IsCoherent}
use backup_sync.Versioned.Blobs.Entries.{HasBlob, IsBacked}
use backup_sync.Versioned.Commit.Store.{StoreOk, SourceOk}
use backup_sync.Versioned.Restore.{
  components, split_path, parse_parts, validate_manifest, validate_content_hash,
}
use backup_sync.Versioned.Restore.Plan.{load_manifest_for_request, plan_entries}
use backup_sync.Versioned.Restore.Request.{RestoreResult, destination_root_for_source, restore_root}
use backup_sync.Versioned.Restore.Plan.Planned.{planned_files}
use backup_sync.Versioned.Restore.Tree.{place_key, directory, regular, place_of, create_dir_all}
use backup_sync.Versioned.Restore.Build.Kept.{IsAbove}
use backup_sync.Versioned.Restore.Build.Files.{Apart}
use backup_sync.Versioned.Restore.Build.Runs.{Compatible}
use backup_sync.Versioned.Restore.Build.Restored.{dir_of}
use backup_sync.Versioned.Restore.Version.{restore_version}
use backup_sync.Versioned.Restore.Machine.{count_extraneous_files}
use backup_sync.Versioned.Restore.Version.Whole.{IsSpared, IsRestored, restore_version-IsRestored}
use backup_sync.Versioned.Restore.Version.Decodes.{digests_of}
use backup_sync.Versioned.Restore.Version.Available.{restore_version-available}
use backup_sync.Versioned.Restore.Version.Needs.{IsHelpful, IsReady, IsRestorable}
use backup_sync.Tests.Fixture.{digest, digest-hex}
use backup_sync.Tests.Restoring.{
  plainly, reads, entries, manifest, v1, index, source, store, stores, config, request, io, places,
}

load_is :
    load_manifest_for_request config (digests_of reads plainly) stores request
    ≡ ok (manifest, store)
unfolding load_manifest_for_request codec_hashing get is_ascii_alphanumeric is_id_byte
    validate_version_id validate_content_hash is_lower_hex_byte split_path parse_parts
load_is = refl

apart :
    (m : Manifest) (s : Disk)
    → load_manifest_for_request config (digests_of reads plainly) stores request ≡ ok (m, s)
    → Apart (planned_files (digests_of reads plainly) m.entries)
apart m s e =
    let it : manifest ≡ m = ground (arith, e, load_is) in
    subst (λ x. Apart (planned_files (digests_of reads plainly) x.entries)) it (tt, tt)

-- The old tree goes; one directory and one file stand in its place.
run : restore_version config (digests_of reads plainly) reads stores io request places ≡ (
  ok (record { files_written = 1; files_removed = 1; dirs_created = 1 }),
  record {
    stage = none;
    target = some (
        ([], directory)
        ∷ (codes "a" ∷ codes "d" ∷ [], regular (1 ∷ 2 ∷ 3 ∷ []) (some (pos 8, 0)))
        ∷ (codes "d" ∷ [], directory)
        ∷ []);
    aside = none;
  },
)
unfolding restore_version codec_hashing get contains_key insert is_ascii_alphanumeric is_id_byte
    validate_version_id validate_content_hash is_lower_hex_byte split_path parse_parts blob_path
    is_lower_hex_sha256 count_extraneous_files sat_add copy_blob_plaintext_to_writer create_dir_all
run = refl

restore_version-IsRestored_example :
    let m = restore_version config (digests_of reads plainly) reads stores io request places in
    Outcome
      (IsRestored config (digests_of reads plainly) reads stores io request)
      (IsSpared io places.target)
      m.0
      m.1
restore_version-IsRestored_example =
    restore_version-IsRestored config (digests_of reads plainly) reads stores io request places refl
      apart

file_place : place_of (codes "d/a") ≡ codes "a" ∷ codes "d" ∷ []
unfolding components split_path parse_parts
file_place = refl

dir_place : place_of (codes "d") ≡ codes "d" ∷ []
unfolding components split_path parse_parts
dir_place = refl

not_above : ¬ IsAbove (codes "a" ∷ codes "d" ∷ []) (codes "d" ∷ [])
not_above (names, e) =
    absurd (omega (arith, ap length e, length-append names (codes "a" ∷ codes "d" ∷ [])))

asked_dir :
    (r : Str × ManifestEntry)
    → In r entries
    → dir_of (is_file r.1.kind) (place_of r.1.rel_path) ≡ codes "d" ∷ []
unfolding components split_path parse_parts
asked_dir r (inl e) =
    ap (λ (x : Str × ManifestEntry). dir_of (is_file x.1.kind) (place_of x.1.rel_path)) e
asked_dir r (inr (inl e)) =
    ap (λ (x : Str × ManifestEntry). dir_of (is_file x.1.kind) (place_of x.1.rel_path)) e
asked_dir r (inr (inr h)) = absurd h

asked_file :
    (p : Str × ManifestEntry)
    → In p entries
    → is_file p.1.kind ≡ true
    → place_of p.1.rel_path ≡ codes "a" ∷ codes "d" ∷ []
asked_file p (inl e) is =
    absurd (ground (arith, subst (λ (x : Str × ManifestEntry). is_file x.1.kind ≡ true) e is))
asked_file p (inr (inl e)) is =
    ap (λ (x : Str × ManifestEntry). place_of x.1.rel_path) e ∙ file_place
asked_file p (inr (inr h)) is = absurd h

compatible : Compatible entries
compatible p r i j is above = not_above (
    subst (λ d. IsAbove (codes "a" ∷ codes "d" ∷ []) d) (asked_dir r j)
      (subst (λ q. IsAbove q (dir_of (is_file r.1.kind) (place_of r.1.rel_path)))
        (asked_file p i is) above))

restorable :
    (m : Manifest)
    → get (codes "v1") (source_of store digest).manifests ≡ some (some m)
    → IsRestorable config (digests_of reads plainly) store 9 m
unfolding get validate_manifest codec_hashing validate_content_hash is_lower_hex_byte split_path
    parse_parts plan_entries contains_key blob_path is_lower_hex_sha256 sat_add
restorable m e =
    let it : manifest ≡ m = ground (arith, e) in
    subst (IsRestorable config (digests_of reads plainly) store 9) it (record {
      valid = refl;
      compatible = compatible;
      apart = (tt, tt);
      room = omega arith;
      minimum = λ k h. let six : 6 ≡ k = ground (arith, h) in omega (arith, six);
    })

store_blobs :
    (k : Str × Str) (b : Str)
    → In (k, b) store.blobs
    → (digests_of reads plainly).sha256_plaintext_blob b ≡ ok k.1
unfolding codec_hashing sha256_plaintext_blob
store_blobs k b (inl e) =
    subst
      (λ (x : (Str × Str) × Str). (digests_of reads plainly).sha256_plaintext_blob x.1 ≡ ok x.0.1)
      (sym e) refl
store_blobs k b (inr h) = absurd h

entry_ok : (k : Str) (e : ManifestEntry) → In (k, e) entries → EntryOk k e
entry_ok k e (inl p) =
    subst (λ (x : Str × ManifestEntry). EntryOk x.0 x.1) (sym p) (refl, λ h q. cc)
entry_ok k e (inr (inl p)) =
    subst (λ (x : Str × ManifestEntry). EntryOk x.0 x.1) (sym p)
      (
        refl,
        λ h q.
            let it : digest ≡ h = ground (arith, q) in
            subst (λ t. is_lower_hex_sha256 t ≡ true) it digest-hex,
      )
entry_ok k e (inr (inr h)) = absurd h

there : blob_exists (digests_of reads plainly) store digest ≡ true
unfolding codec_hashing contains_key blob_path is_lower_hex_sha256 is_lower_hex_byte
there = refl

entry-IsBacked : IsBacked (digests_of reads plainly) store entries
unfolding get codec_hashing
entry-IsBacked k e g is = elim (get-In k e entries g) [
  | inl p ↦
      absurd (ground (arith, subst (λ (x : Str × ManifestEntry). is_file x.1.kind ≡ true) p is))
  | inr more ↦ elim more [
    | inl p ↦
        subst (λ (x : Str × ManifestEntry). HasBlob (digests_of reads plainly) store x.1) (sym p)
          (λ again. (digest, (refl, there))) is
    | inr h ↦ absurd h
  ]
]

source_ok : SourceOk (digests_of reads plainly) store source
unfolding get
source_ok = record {
  backed = λ id m g. elim (get-In id (some m) source.manifests g) [
    | inl p ↦
        let it : manifest ≡ m = ground (arith, ap (λ (x : Str × Option Manifest). x.1) p) in
        subst (λ x. IsCoherent x.entries × IsBacked (digests_of reads plainly) store x.entries) it
          (record { sorted = ((refl, tt), (tt, tt)); entries = entry_ok }, entry-IsBacked)
    | inr h ↦ absurd h
  ];
  readable = λ i p v listed.
      let it : index ≡ i = ground (arith, p) in
      elim (subst (λ x. In v x.versions) (sym it) listed) [
        | inl same ↦ (manifest, ap (λ (x : VersionInfo). get x.id source.manifests) same)
        | inr h ↦ absurd h
      ];
}

store-StoreOk : StoreOk (digests_of reads plainly) store
store-StoreOk = record {
  blobs = store_blobs;
  sources = λ id s g. elim (get-In id s store.sources g) [
    | inl p ↦
        subst (SourceOk (digests_of reads plainly) store)
          (sym (ap (λ (x : Str × SourceStore). x.1) p)) source_ok
    | inr h ↦ absurd h
  ];
}

helpful : IsHelpful plainly io
helpful = record {
  lease = refl;
  parent = refl;
  key = refl;
  walk = refl;
  tree = record { mkdir = λ p. refl; temp = λ p. refl; persist = λ p. refl; mtime = λ p. refl };
  aside = refl;
  move = refl;
}

ready : IsReady places
unfolding get
ready = record { target = refl; stage = refl; aside = refl }

id_ok : validate_version_id v1.id ≡ ok tt
unfolding validate_version_id is_id_byte is_ascii_alphanumeric
id_ok = refl

destination_is : destination_root_for_source config request.source_path ≡ ok (codes "/mnt")
unfolding destination_root_for_source split_path parse_parts
destination_is = refl

root_is : restore_root request ≡ ok (codes "/home")
unfolding restore_root
root_is = refl

listing : (source_of store digest).index ≡ index_file index
unfolding get
listing = refl

restore_version-available_example :
    let m = restore_version config (digests_of reads plainly) reads stores io request places in
    (result : RestoreResult) × (m.0 ≡ ok result)
    × IsRestored config (digests_of reads plainly) reads stores io request result m.1
unfolding get
restore_version-available_example =
    restore_version-available config reads stores plainly io request places (codes "/mnt")
      (codes "/home") 9 index v1 id_ok refl destination_is root_is store-StoreOk listing (inl refl)
      restorable (λ path blob. refl) helpful refl ready
