-- ===== src/Versioned/Commit/Collect.antt =====
-- `gc_unreferenced_blobs` (store.rs) and what a store is restored from.
use mathlib.Core.Path.{subst}
use backup_sync.Prelude.{
  ◌≡◌, refl, sym, true, ◌&&◌, some, [], ◌∷◌, Str, str_eq, inl, inr, Bool-cases, arith,
}
use backup_sync.Map.{Map, get, contains_key, str_key, pair_key, get-In, contains_key-get}
use backup_sync.Versioned.Model.{Manifest, ManifestEntry}
use backup_sync.Versioned.Disk.{
  Disk, Hashing, blob_path, blob_exists, is_lower_hex_sha256, SourceStore,
}
use backup_sync.Versioned.Gc.{GcIo, gc_unreferenced_blobs}
use backup_sync.Versioned.Gc.Referenced.{IsReferenced}
use backup_sync.Versioned.Gc.Sweep.{
  gc_unreferenced_blobs_keeps_referenced, gc_unreferenced_blobs_only, gc_unreferenced_blobs_sources,
}
use backup_sync.Versioned.Scan.Entries.{IsCoherent}
use backup_sync.Versioned.Blobs.Entries.{HasBlob}
use backup_sync.Versioned.Commit.Store.{StoreOk}

get-of-contains_key :
    (k : Str × Str) (m : Map (Str × Str) Str)
    → contains_key k m ≡ true
    → (b : Str) × (get k m ≡ some b)
unfolding get contains_key
get-of-contains_key k [] h = absurd (ground arith)
get-of-contains_key k ((j, w) ∷ m) h = elim (Bool-cases (str_eq j.0 k.0 && str_eq j.1 k.1)) [
  | inl same ↦ rw same (w, refl)
  | inr other ↦ rw other (get-of-contains_key k m (ground (arith, h, other)))
]

blob_path-name :
    (hashing : Hashing) (h : Str) → is_lower_hex_sha256 h ≡ true → (blob_path hashing h).1 ≡ h
unfolding blob_path
blob_path-name hashing h hex = rw hex refl

module _ (hashing : Hashing) (io : GcIo) (d : Disk) where
  blob_stays :
      (h : Str)
      → is_lower_hex_sha256 h ≡ true
      → IsReferenced h d.sources
      → blob_exists hashing d h ≡ true
      → blob_exists hashing (gc_unreferenced_blobs io d).1 h ≡ true
  blob_stays h hex r there =
      let k = blob_path hashing h in
      let (b, at_k) = get-of-contains_key k d.blobs there in
      let named = subst (λ t. IsReferenced t d.sources) (sym (blob_path-name hashing h hex)) r in
      contains_key-get k b (gc_unreferenced_blobs io d).1.blobs
        (gc_unreferenced_blobs_keeps_referenced io d k b named at_k)

  entry_stays :
      (id version : Str) (s : SourceStore) (m : Manifest) (path : Str) (e : ManifestEntry)
      → get id d.sources ≡ some s
      → get version s.manifests ≡ some (some m)
      → get path m.entries ≡ some e
      → IsCoherent m.entries
      → HasBlob hashing d e
      → HasBlob hashing (gc_unreferenced_blobs io d).1 e
  entry_stays id version s m path e p q r coherent has isf =
      let (h, (digest, there)) = has isf in
      let place = get-In path e m.entries r in
      (
        h,
        (
          digest,
          blob_stays h ((coherent.entries path e place).1 h digest)
              (record {
                source_id = id;
                store = s;
                source_place = get-In id s d.sources p;
                version_id = version;
                manifest = m;
                manifest_place = get-In version (some m) s.manifests q;
                named = record { path = path; entry = e; place = place; digest = digest };
              })
              there,
        ),
      )

  -- In a store that can be restored from, collecting unreferenced blobs, whether it ends or fails,
  -- leaves one that can: each listed version's manifest reads back, and each file of a manifest
  -- that can be read has its blob, which decodes to the content that its name tells.
  pub gc_unreferenced_blobs-StoreOk :
      StoreOk hashing d → StoreOk hashing (gc_unreferenced_blobs io d).1
  gc_unreferenced_blobs-StoreOk h = record {
    blobs = λ k b p. h.blobs k b (gc_unreferenced_blobs_only io d k b p);
    sources = λ id s p.
        let before = subst (λ t. get id t ≡ some s) (gc_unreferenced_blobs_sources io d) p in
        let o = h.sources id s before in
        record {
          backed = λ version m q.
              let (c, b) = o.backed version m q in
              (c, λ path e r. entry_stays id version s m path e before q r c (b path e r));
          readable = o.readable;
        };
  }
