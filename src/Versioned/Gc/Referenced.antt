-- ===== src/Versioned/Gc/Referenced.antt =====
-- The digests that `gc_unreferenced_blobs` (store.rs) collects from the manifests.
use mathlib.Core.Path.{subst}
use backup_sync.Prelude.{
  ◌≡◌, refl, sym, Bool, true, false, Option, none, some, List, [], ◌∷◌, ◌++◌, if◌then◌else◌, Str,
  str_eq_iff, Result, ok, err, ◌>>=◌, In, Result-cases, arith, inl, inr, ap, ◌∙◌, ◌⊎◌,
}
use backup_sync.Map.{Map, pair_key, str_key}
use backup_sync.Versioned.Model.{ManifestEntry, Manifest}
use backup_sync.Versioned.Prune.{contains}
use backup_sync.Versioned.Disk.{StoreError, SourceStore, io_failed}
use backup_sync.Versioned.Gc.{
  GcIo, hashes_of_entry, hashes_of_entries, hashes_of_manifests, referenced_hashes,
}

-- An entry of the manifest has the digest.
pub record IsNamed (h : Str) (m : Map Str ManifestEntry) : Type 0 where
  pub path : Str
  pub entry : ManifestEntry
  pub place : In (path, entry) m
  pub digest : entry.sha256 ≡ some h

-- A readable manifest of the sources has an entry with the digest.
pub record IsReferenced (h : Str) (sources : Map Str SourceStore) : Type 0 where
  pub source_id : Str
  pub store : SourceStore
  pub source_place : In (source_id, store) sources
  pub version_id : Str
  pub manifest : Manifest
  pub manifest_place : In (version_id, some manifest) store.manifests
  pub named : IsNamed h manifest.entries

In-append_left : {A : Type 0} (a : A) (xs ys : List A) → In a xs → In a (xs ++ ys)
In-append_left a [] ys p = absurd p
In-append_left a (x ∷ xs) ys (inl e) = inl e
In-append_left a (x ∷ xs) ys (inr p) = inr (In-append_left a xs ys p)

In-append_right : {A : Type 0} (a : A) (xs ys : List A) → In a ys → In a (xs ++ ys)
In-append_right a [] ys p = p
In-append_right a (x ∷ xs) ys p = inr (In-append_right a xs ys p)

pub In-append : {A : Type 0} (a : A) (xs ys : List A) → In a (xs ++ ys) → In a xs ⊎ In a ys
In-append a [] ys p = inr p
In-append a (x ∷ xs) ys (inl e) = inl (inl e)
In-append a (x ∷ xs) ys (inr p) = elim (In-append a xs ys p) [ inl q ↦ inl (inr q) | inr q ↦ inr q ]

pub In-contains : (h : Str) (hs : List Str) → In h hs → contains h hs ≡ true
unfolding contains
In-contains h [] p = absurd p
In-contains h (x ∷ hs) (inl e) = ground (arith, (str_eq_iff x h).1 (sym e))
In-contains h (x ∷ hs) (inr p) = ground (arith, In-contains h hs p)

hashes_of_entries_complete :
    (m : Map Str ManifestEntry) (k h : Str) (e : ManifestEntry)
    → In (k, e) m
    → e.sha256 ≡ some h
    → In h (hashes_of_entries m)
unfolding hashes_of_entries
hashes_of_entries_complete [] k h e p q = absurd p
hashes_of_entries_complete ((j, x) ∷ m) k h e (inl same) q =
    let it : e ≡ x = ap (λ (t : Str × ManifestEntry). t.1) same in
    let g : x.sha256 ≡ some h = sym (ap (λ (t : ManifestEntry). t.sha256) it) ∙ q in rw g (inl refl)
hashes_of_entries_complete ((j, x) ∷ m) k h e (inr later) q =
    In-append_right h (hashes_of_entry x.sha256) (hashes_of_entries m)
      (hashes_of_entries_complete m k h e later q)

hashes_of_manifests_complete :
    (files : Map Str (Option Manifest)) (id : Str) (m : Manifest) (h : Str) (hs : List Str)
    → hashes_of_manifests files ≡ ok hs
    → In (id, some m) files
    → IsNamed h m.entries
    → In h hs
unfolding hashes_of_manifests
hashes_of_manifests_complete [] id m h hs p place named = absurd place
hashes_of_manifests_complete ((j, none) ∷ files) id m h hs p place named = cc
hashes_of_manifests_complete ((j, some x) ∷ files) id m h hs p place named =
    elim (Result-cases (hashes_of_manifests files)) [
      | inr (e, failed) ↦ absurd (ground (arith, p, failed))
      | inl (rest, done) ↦
          let all : hashes_of_entries x.entries ++ rest ≡ hs = ground (arith, p, done) in
          subst (In h) all (elim place [
            | inl here ↦
                let it : m ≡ x = ground (arith, ap (λ (t : Str × Option Manifest). t.1) here) in
                let named_x = subst (λ (t : Manifest). IsNamed h t.entries) it named in
                In-append_left h (hashes_of_entries x.entries) rest (
                  hashes_of_entries_complete x.entries named_x.path h named_x.entry named_x.place
                    named_x.digest)
            | inr later ↦
                In-append_right h (hashes_of_entries x.entries) rest
                  (hashes_of_manifests_complete files id m h rest done later named)
          ])
    ]

module _ (io : GcIo) where
  -- One source's manifests, and those of the others.
  pub joined :
      (listed : Result StoreError (List Str)) (rest hs : List Str)
      → (listed >>= λ hashes. ok (hashes ++ rest)) ≡ ok hs
      → (hashes : List Str) × ((listed ≡ ok hashes) × (hashes ++ rest ≡ hs))
  joined (err e) rest hs p = cc
  joined (ok hashes) rest hs p = (hashes, (refl, ground (arith, p)))

  pub listed_manifests :
      (refused : Bool) (e : StoreError) (s : SourceStore) (hashes : List Str)
      → (if refused then err e else hashes_of_manifests s.manifests) ≡ ok hashes
      → hashes_of_manifests s.manifests ≡ ok hashes
  listed_manifests true e s hashes p = cc
  listed_manifests false e s hashes p = p

  pub referenced_hashes_complete :
      (sources : Map Str SourceStore) (h : Str) (hs : List Str)
      → referenced_hashes io sources ≡ ok hs
      → IsReferenced h sources
      → In h hs
  unfolding referenced_hashes
  referenced_hashes_complete [] h hs p r = absurd r.source_place
  referenced_hashes_complete ((id, s) ∷ sources) h hs p r =
      elim (Result-cases (referenced_hashes io sources)) [
        | inr (e, failed) ↦ absurd (ground (arith, p, failed))
        | inl (rest, done) ↦
            let q = rw done at p in
            let (hashes, (listed, both)) =
              joined
                (if io.list_refused id then err (io_failed id) else hashes_of_manifests s.manifests)
                rest hs q in
            subst (In h) both (elim r.source_place [
              | inl here ↦
                  let it : r.store ≡ s = ap (λ (t : Str × SourceStore). t.1) here in
                  In-append_left h hashes rest (
                    hashes_of_manifests_complete s.manifests r.version_id r.manifest h hashes
                      (listed_manifests (io.list_refused id) (io_failed id) s hashes listed)
                      (subst (λ (t : SourceStore). In (r.version_id, some r.manifest) t.manifests)
                        it r.manifest_place)
                      r.named)
              | inr later ↦ In-append_right h hashes rest (
                  referenced_hashes_complete sources h rest done (record {
                    source_id = r.source_id;
                    store = r.store;
                    source_place = later;
                    version_id = r.version_id;
                    manifest = r.manifest;
                    manifest_place = r.manifest_place;
                    named = r.named;
                  }))
            ])
      ]
