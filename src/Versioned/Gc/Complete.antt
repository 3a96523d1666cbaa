-- ===== src/Versioned/Gc/Complete.antt =====
-- The blobs that `gc_unreferenced_blobs` (store.rs) leaves.
use mathlib.Core.Path.{subst}
use backup_sync.Prelude.{
  ◌≡◌, refl, sym, Bool, true, false, Option, none, some, List, [], ◌∷◌, ◌++◌, if◌then◌else◌, Str,
  str_eq, str_eq_iff, Result, ok, err, is_ok, In, Bool-cases, Result-cases, arith, inl, inr, ap,
}
use backup_sync.Map.{Map}
use backup_sync.Versioned.Model.{ManifestEntry, Manifest}
use backup_sync.Versioned.Prune.{contains}
use backup_sync.Versioned.Disk.{Disk, StoreError, SourceStore, io_failed}
use backup_sync.Versioned.Gc.{
  GcIo, hashes_of_entry, hashes_of_entries, hashes_of_manifests, referenced_hashes, sweep_disk,
  gc_unreferenced_blobs,
}
use backup_sync.Versioned.Gc.Referenced.{IsNamed, IsReferenced, In-append, joined, listed_manifests}
use backup_sync.Versioned.Gc.Sweep.{sweep_done}

In-of-contains : (h : Str) (hs : List Str) → contains h hs ≡ true → In h hs
unfolding contains
In-of-contains h [] p = absurd (ground (arith, p))
In-of-contains h (x ∷ hs) p = elim (Bool-cases (str_eq x h)) [
  | inl same ↦ inl (sym ((str_eq_iff x h).0 same))
  | inr other ↦ inr (In-of-contains h hs (ground (arith, p, other)))
]

hash_of_entry : (h : Str) (known : Option Str) → In h (hashes_of_entry known) → known ≡ some h
hash_of_entry h none p = absurd p
hash_of_entry h (some x) (inl e) = ap some (sym e)
hash_of_entry h (some x) (inr p) = absurd p

hashes_of_entries_sound :
    (m : Map Str ManifestEntry) (h : Str) → In h (hashes_of_entries m) → IsNamed h m
unfolding hashes_of_entries
hashes_of_entries_sound [] h p = absurd p
hashes_of_entries_sound ((k, e) ∷ m) h p =
    elim (In-append h (hashes_of_entry e.sha256) (hashes_of_entries m) p) [
      | inl here ↦ record {
        path = k;
        entry = e;
        place = inl refl;
        digest = hash_of_entry h e.sha256 here;
      }
      | inr later ↦
          let n = hashes_of_entries_sound m h later in
          record { path = n.path; entry = n.entry; place = inr n.place; digest = n.digest }
    ]

-- A manifest of the files has an entry with the digest.
record IsNamedIn (h : Str) (files : Map Str (Option Manifest)) : Type 0 where
  version_id : Str
  manifest : Manifest
  place : In (version_id, some manifest) files
  named : IsNamed h manifest.entries

hashes_of_manifests_sound :
    (files : Map Str (Option Manifest)) (h : Str) (hs : List Str)
    → hashes_of_manifests files ≡ ok hs
    → In h hs
    → IsNamedIn h files
unfolding hashes_of_manifests
hashes_of_manifests_sound [] h hs p place =
    let none_named : [] ≡ hs = ground (arith, p) in absurd (subst (In h) (sym none_named) place)
hashes_of_manifests_sound ((id, none) ∷ files) h hs p place = cc
hashes_of_manifests_sound ((id, some m) ∷ files) h hs p place =
    elim (Result-cases (hashes_of_manifests files)) [
      | inr (e, failed) ↦ absurd (ground (arith, p, failed))
      | inl (rest, done) ↦
          let both : hashes_of_entries m.entries ++ rest ≡ hs = ground (arith, p, done) in
          elim (In-append h (hashes_of_entries m.entries) rest (subst (In h) (sym both) place)) [
            | inl here ↦ record {
              version_id = id;
              manifest = m;
              place = inl refl;
              named = hashes_of_entries_sound m.entries h here;
            }
            | inr later ↦
                let n = hashes_of_manifests_sound files h rest done later in
                record {
                  version_id = n.version_id;
                  manifest = n.manifest;
                  place = inr n.place;
                  named = n.named;
                }
          ]
    ]

module _ (io : GcIo) where
  referenced_hashes_sound :
      (sources : Map Str SourceStore) (h : Str) (hs : List Str)
      → referenced_hashes io sources ≡ ok hs
      → In h hs
      → IsReferenced h sources
  unfolding referenced_hashes
  referenced_hashes_sound [] h hs p place =
      let none_named : [] ≡ hs = ground (arith, p) in absurd (subst (In h) (sym none_named) place)
  referenced_hashes_sound ((id, s) ∷ sources) h hs p place =
      elim (Result-cases (referenced_hashes io sources)) [
        | inr (e, failed) ↦ absurd (ground (arith, p, failed))
        | inl (rest, done) ↦
            let q = rw done at p in
            let (hashes, (listed, both)) =
              joined io
                (if io.list_refused id then err (io_failed id) else hashes_of_manifests s.manifests)
                rest hs q in
            elim (In-append h hashes rest (subst (In h) (sym both) place)) [
              | inl here ↦
                  let n =
                    hashes_of_manifests_sound s.manifests h hashes
                      (listed_manifests io (io.list_refused id) (io_failed id) s hashes listed)
                      here in
                  record {
                    source_id = id;
                    store = s;
                    source_place = inl refl;
                    version_id = n.version_id;
                    manifest = n.manifest;
                    manifest_place = n.place;
                    named = n.named;
                  }
              | inr later ↦
                  let r = referenced_hashes_sound sources h rest done later in
                  record {
                    source_id = r.source_id;
                    store = r.store;
                    source_place = inr r.source_place;
                    version_id = r.version_id;
                    manifest = r.manifest;
                    manifest_place = r.manifest_place;
                    named = r.named;
                  }
            ]
      ]

  swept :
      (d : Disk) (r : Result StoreError (List Str)) (k : Str × Str) (b : Str)
      → referenced_hashes io d.sources ≡ r
      → io.remove_refused k ≡ false
      → is_ok (sweep_disk io r d).0 ≡ true
      → In (k, b) (sweep_disk io r d).1.blobs
      → IsReferenced k.1 d.sources
  swept d (err e) k b q free done place = absurd (ground (arith, done))
  swept d (ok hs) k b q free done place =
      referenced_hashes_sound d.sources k.1 hs q
        (In-of-contains k.1 hs (ground (arith, free, sweep_done io hs d.blobs k b done place)))

  -- If the collection ends without an error in a store whose directory of sources exists, each blob
  -- that is left, and that the file system would have removed, has the name of a digest in a
  -- manifest that can be read.
  pub gc_unreferenced_blobs_complete :
      (d : Disk) (k : Str × Str) (b : Str)
      → d.sources_exist ≡ true
      → io.remove_refused k ≡ false
      → is_ok (gc_unreferenced_blobs io d).0 ≡ true
      → In (k, b) (gc_unreferenced_blobs io d).1.blobs
      → IsReferenced k.1 d.sources
  unfolding gc_unreferenced_blobs
  gc_unreferenced_blobs_complete d k b there free = by_existence d.sources_exist there
    where
      by_existence :
          (exist : Bool)
          → exist ≡ true
          → let r =
              (if exist then sweep_disk io (referenced_hashes io d.sources) d else (ok tt, d)) in
            is_ok r.0 ≡ true → In (k, b) r.1.blobs → IsReferenced k.1 d.sources
      by_existence true e done place =
          swept d (referenced_hashes io d.sources) k b refl free done place
      by_existence false e done place = cc
