-- ===== src/Versioned/Commit/Store.antt =====
-- What a store is restored from: the manifests of the listed versions, and the blobs of their
-- files.
use mathlib.Core.Path.{subst}
use backup_sync.Prelude.{
  ◌≡◌, refl, sym, Option, none, some, List, ap, ◌∙◌, Str, str_eq, str_eq_iff, inl, inr, Bool-cases,
  arith, In,
}
use backup_sync.Map.{Map, get, insert, str_key, get-insert}
use backup_sync.Versioned.Model.{VersionInfo, VersionIndex, Manifest}
use backup_sync.Versioned.Disk.{
  Disk, Hashing, index_file, SourceStore, source_of, no_source, or_no_source,
}
use backup_sync.Versioned.Scan.Entries.{IsCoherent}
use backup_sync.Versioned.Blobs.Written.{BlobsOk, Grown}
use backup_sync.Versioned.Blobs.Entries.{IsBacked, HasBlob_grown}
use backup_sync.Versioned.Folder.{set_source}

-- Each of the versions has a manifest that can be read.
abbrev pub AllReadable : Map Str (Option Manifest) → List VersionInfo → Type 0
AllReadable manifests versions =
    (v : VersionInfo) → In v versions → (m : Manifest) × (get v.id manifests ≡ some (some m))

-- A manifest that can be read is coherent, and each of its files has its blob.
abbrev pub AllBacked : Hashing → Disk → Map Str (Option Manifest) → Type 0
AllBacked hashing d manifests =
    (id : Str) (m : Manifest)
    → get id manifests ≡ some (some m)
    → IsCoherent m.entries × IsBacked hashing d m.entries

pub record SourceOk (hashing : Hashing) (d : Disk) (s : SourceStore) : Type 0 where
  pub backed : AllBacked hashing d s.manifests
  pub readable : (i : VersionIndex) → s.index ≡ index_file i → AllReadable s.manifests i.versions

pub record StoreOk (hashing : Hashing) (d : Disk) : Type 0 where
  pub blobs : BlobsOk hashing d.blobs
  pub sources : (id : Str) (s : SourceStore) → get id d.sources ≡ some s → SourceOk hashing d s

module _ (hashing : Hashing) where
  no_source-SourceOk : (d : Disk) → SourceOk hashing d no_source
  unfolding get
  no_source-SourceOk d = record { backed = λ id m p. cc; readable = λ i p. cc }

  found-SourceOk :
      (d : Disk) (id : Str) (found : Option SourceStore)
      → StoreOk hashing d
      → get id d.sources ≡ found
      → SourceOk hashing d (or_no_source found)
  found-SourceOk d id none h q = no_source-SourceOk d
  found-SourceOk d id (some s) h q = h.sources id s q

  pub source_of-SourceOk :
      (d : Disk) (id : Str) → StoreOk hashing d → SourceOk hashing d (source_of d id)
  source_of-SourceOk d id h = found-SourceOk d id (get id d.sources) h refl

  pub set_source-StoreOk :
      (id : Str) (f : SourceStore → SourceStore) (d : Disk)
      → SourceOk hashing d (f (source_of d id))
      → StoreOk hashing d
      → StoreOk hashing (set_source id f d)
  set_source-StoreOk id f d new h = record {
    blobs = h.blobs;
    sources = λ j s p.
        let q = sym (get-insert id j (f (source_of d id)) d.sources) ∙ p in
        elim (Bool-cases (str_eq id j)) [
          | inl same ↦
              let it : f (source_of d id) ≡ s = ground (arith, q, same) in
              let o = subst (SourceOk hashing d) it new in
              record { backed = o.backed; readable = o.readable }
          | inr other ↦
              let o = h.sources j s (ground (arith, q, other)) in
              record { backed = o.backed; readable = o.readable }
        ];
  }

  -- After a change of a source, its directory is the new one.
  pub source_of-set_source :
      (id : Str) (f : SourceStore → SourceStore) (d : Disk)
      → source_of (set_source id f d) id ≡ f (source_of d id)
  source_of-set_source id f d =
      let q = get-insert id id (f (source_of d id)) d.sources in
      let self = (str_eq_iff id id).1 refl in
      let found : get id (insert id (f (source_of d id)) d.sources) ≡ some (f (source_of d id)) =
        ground (arith, q, self) in
      ap or_no_source found

  pub Grown-StoreOk : (d e : Disk) → Grown hashing d e → StoreOk hashing d → StoreOk hashing e
  Grown-StoreOk d e g h = record {
    blobs = g.blobs_ok;
    sources = λ id s p.
        let o = h.sources id s (subst (λ t. get id t ≡ some s) g.same_sources p) in
        record {
          backed = λ j m q.
              let (c, b) = o.backed j m q in (c, λ k x r. HasBlob_grown hashing d e x g (b k x r));
          readable = o.readable;
        };
  }
