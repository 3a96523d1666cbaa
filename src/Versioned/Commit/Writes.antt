-- ===== src/Versioned/Commit/Writes.antt =====
-- The single writes of `backup_one_folder` (store.rs).
use mathlib.Core.Path.{subst}
use backup_sync.Prelude.{
  ◌≡◌, sym, Bool, true, false, some, List, [], ◌∷◌, ◌++◌, ap, ◌∙◌, Str, str_eq, str_eq_iff, ◌⊎◌,
  inl, inr, Bool-cases, arith, In, filter,
}
use backup_sync.Map.{get, insert, remove, str_key, get-insert, get-remove}
use backup_sync.Versioned.Model.{VersionInfo, VersionIndex, Manifest}
use backup_sync.Versioned.Disk.{Disk, Hashing, index_file, SourceStore, source_of, StoreError}
use backup_sync.Versioned.Exec.{Hoare}
use backup_sync.Versioned.Scan.Entries.{IsCoherent}
use backup_sync.Versioned.Blobs.Entries.{IsBacked}
use backup_sync.Versioned.Baseline.{later_version}
use backup_sync.Versioned.Folder.{
  Written, not_written, unsynced, durable, durably, set_source, insert_version, sort_versions,
}
use backup_sync.Versioned.Commit.Store.{
  AllReadable, StoreOk, source_of-SourceOk, set_source-StoreOk, source_of-set_source,
}

-- A write keeps what holds before, and brings about what its effect does.
pub durably-Hoare :
    (P Q E : Disk → Type 0) (w : Written) (e : StoreError) (f : Disk → Disk)
    → ((d : Disk) → P d → Q (f d))
    → ((d : Disk) → P d → E d)
    → ((d : Disk) → Q d → E d)
    → Hoare P (durably w e f) (λ u. Q) E
durably-Hoare P Q E not_written e f step before after = record { run = before }
durably-Hoare P Q E unsynced e f step before after = record { run = λ d p. after (f d) (step d p) }
durably-Hoare P Q E durable e f step before after = record { run = step }

pub In-insert_version :
    (v w : VersionInfo) (vs : List VersionInfo) → In w (insert_version v vs) → (w ≡ v) ⊎ In w vs
unfolding insert_version
In-insert_version v w [] (inl e) = inl e
In-insert_version v w [] (inr p) = absurd p
In-insert_version v w (x ∷ vs) p = elim (Bool-cases (later_version v x)) [
  | inl later ↦ elim (rw later at p) [
    | inl here ↦ inr (inl here)
    | inr rest ↦ elim (In-insert_version v w vs rest) [ inl e ↦ inl e | inr q ↦ inr (inr q) ]
  ]
  | inr first ↦ elim (rw first at p) [ inl e ↦ inl e | inr q ↦ inr q ]
]

pub In-sort_versions : (w : VersionInfo) (vs : List VersionInfo) → In w (sort_versions vs) → In w vs
unfolding sort_versions
In-sort_versions w [] p = p
In-sort_versions w (v ∷ vs) p = elim (In-insert_version v w (sort_versions vs) p) [
  | inl e ↦ inl e
  | inr q ↦ inr (In-sort_versions w vs q)
]

pub In-snoc : (w v : VersionInfo) (vs : List VersionInfo) → In w (vs ++ v ∷ []) → In w vs ⊎ (w ≡ v)
In-snoc w v [] (inl e) = inr e
In-snoc w v [] (inr p) = absurd p
In-snoc w v (x ∷ vs) (inl e) = inl (inl e)
In-snoc w v (x ∷ vs) (inr p) = elim (In-snoc w v vs p) [ inl q ↦ inl (inr q) | inr e ↦ inr e ]

pub In-filter :
    (p : VersionInfo → Bool) (w : VersionInfo) (vs : List VersionInfo)
    → In w (filter p vs)
    → In w vs × (p w ≡ true)
In-filter p w [] h = absurd h
In-filter p w (v ∷ vs) h = elim (Bool-cases (p v)) [
  | inl keep ↦ elim (rw keep at h) [
    | inl e ↦ (inl e, ap p e ∙ keep)
    | inr q ↦ let (place, passes) = In-filter p w vs q in (inr place, passes)
  ]
  | inr drop ↦ let (place, passes) = In-filter p w vs (rw drop at h) in (inr place, passes)
]

module _ (hashing : Hashing) (id : Str) where
  -- The store is well, and the index at hand names only readable manifests.
  abbrev pub Ready : VersionIndex → Disk → Type 0
  Ready index d = StoreOk hashing d × AllReadable (source_of d id).manifests index.versions

  -- A change that leaves a source's manifests and index.
  pub same-Ready :
      (f : SourceStore → SourceStore) (index : VersionIndex) (d : Disk)
      → ((s : SourceStore) → (f s).manifests ≡ s.manifests)
      → ((s : SourceStore) → (f s).index ≡ s.index)
      → Ready index d
      → Ready index (set_source id f d)
  same-Ready f index d same_manifests same_index (store, readable) =
      let o = source_of-SourceOk hashing d id store in
      let s = source_of d id in
      (
        set_source-StoreOk hashing id f d
            (record {
              backed =
                  λ v m p. o.backed v m (subst (λ t. get v t ≡ some (some m)) (same_manifests s) p);
              readable = λ i q v p.
                  let (m, r) = o.readable i (sym (same_index s) ∙ q) v p in
                  (m, subst (λ t. get v.id t ≡ some (some m)) (sym (same_manifests s)) r);
            })
            store,
        λ v p.
            let (m, r) = readable v p in
            (
              m,
              subst (λ (t : SourceStore). get v.id t.manifests ≡ some (some m))
                  (sym (source_of-set_source hashing id f d))
                  (subst (λ t. get v.id t ≡ some (some m)) (sym (same_manifests s)) r),
            ),
      )

  -- A manifest that is coherent and backed is added.
  pub manifest-Ready :
      (index after : VersionIndex) (version : Str) (m : Manifest) (d : Disk)
      → IsCoherent m.entries
      → IsBacked hashing d m.entries
      → ((v : VersionInfo) → In v after.versions → In v index.versions ⊎ (v.id ≡ version))
      → Ready index d
      → Ready after
          (set_source id (λ s. record s { manifests = insert version (some m) s.manifests }) d)
  manifest-Ready index after version m d coherent backed listed (store, readable) =
      let o = source_of-SourceOk hashing d id store in
      let s = source_of d id in
      let f = λ (t : SourceStore). record t { manifests = insert version (some m) t.manifests } in
      let stays : (v : Str) (x : Manifest)
          → get v s.manifests ≡ some (some x)
          → (y : Manifest) × (get v (insert version (some m) s.manifests) ≡ some (some y)) =
        λ v x p. elim (Bool-cases (str_eq version v)) [
          | inl same ↦ (m, ground (arith, same, get-insert version v (some m) s.manifests))
          | inr other ↦ (x, ground (arith, other, p, get-insert version v (some m) s.manifests))
        ] in
      (
        set_source-StoreOk hashing id f d
            (record {
              backed = λ v x p.
                  let q = sym (get-insert version v (some m) s.manifests) ∙ p in
                  elim (Bool-cases (str_eq version v)) [
                    | inl same ↦
                        let it : m ≡ x = ground (arith, q, same) in
                        subst
                          (λ (t : Manifest). IsCoherent t.entries × IsBacked hashing d t.entries) it
                          (coherent, backed)
                    | inr other ↦ o.backed v x (ground (arith, q, other))
                  ];
              readable = λ i q v p. let (x, r) = o.readable i q v p in stays v.id x r;
            })
            store,
        λ v p.
            let there : (y : Manifest) × (get v.id (insert version (some m) s.manifests)
                  ≡ some (some y)) =
              elim (listed v p) [
                | inl old ↦ let (x, r) = readable v old in stays v.id x r
                | inr new ↦ (
                  m,
                  ground (
                    arith,
                    (str_eq_iff version v.id).1 (sym new),
                    get-insert version v.id (some m) s.manifests,
                  ),
                )
              ] in
            let (y, r) = there in
            (
              y,
              subst (λ (t : SourceStore). get v.id t.manifests ≡ some (some y))
                  (sym (source_of-set_source hashing id f d)) r,
            ),
      )

  -- The index is the one at hand.
  abbrev pub Listed : VersionIndex → Disk → Type 0
  Listed index d = StoreOk hashing d × ((source_of d id).index ≡ index_file index)

  pub index-Listed :
      (index : VersionIndex) (d : Disk)
      → Ready index d
      → Listed index (set_source id (λ s. record s { index = index_file index }) d)
  index-Listed index d (store, readable) =
      let o = source_of-SourceOk hashing d id store in
      let f = λ (t : SourceStore). record t { index = index_file index } in
      (
        set_source-StoreOk hashing id f d
            (record {
              backed = o.backed;
              readable = λ i q.
                  subst (λ (t : VersionIndex). AllReadable (source_of d id).manifests t.versions)
                    (index_file-injective index i q) readable;
            })
            store,
        ap (λ (t : SourceStore). t.index) (source_of-set_source hashing id f d),
      )
    where
      index_file-injective : (i j : VersionIndex) → index_file i ≡ index_file j → i ≡ j
      index_file-injective i j p = ground arith

  pub same-Listed :
      (f : SourceStore → SourceStore) (index : VersionIndex) (d : Disk)
      → ((s : SourceStore) → (f s).manifests ≡ s.manifests)
      → ((s : SourceStore) → (f s).index ≡ s.index)
      → Listed index d
      → Listed index (set_source id f d)
  same-Listed f index d same_manifests same_index (store, at_index) =
      let o = source_of-SourceOk hashing d id store in
      let (kept, rest) =
        same-Ready f index d same_manifests same_index (store, o.readable index at_index) in
      (
        kept,
        ap (λ (t : SourceStore). t.index) (source_of-set_source hashing id f d)
            ∙ (same_index (source_of d id) ∙ at_index),
      )

  -- The manifest of a version that is not listed goes.
  pub removal-Listed :
      (index : VersionIndex) (version : Str) (d : Disk)
      → ((v : VersionInfo) → In v index.versions → str_eq version v.id ≡ false)
      → Listed index d
      → Listed index (set_source id (λ s. record s { manifests = remove version s.manifests }) d)
  removal-Listed index version d unlisted (store, at_index) =
      let o = source_of-SourceOk hashing d id store in
      let s = source_of d id in
      let f = λ (t : SourceStore). record t { manifests = remove version t.manifests } in
      (
        set_source-StoreOk hashing id f d
            (record {
              backed = λ v m p. o.backed v m (elim (Bool-cases (str_eq version v)) [
                | inl same ↦ absurd (ground (arith, same, get-remove version v s.manifests, p))
                | inr other ↦ ground (arith, other, get-remove version v s.manifests, p)
              ]);
              readable = λ i q v p.
                  let (m, r) = o.readable i q v p in
                  let listed =
                    subst (λ (t : VersionIndex). In v t.versions)
                      (same_file i index (sym q ∙ at_index)) p in
                  let other = unlisted v listed in
                  (m, ground (arith, other, r, get-remove version v.id s.manifests));
            })
            store,
        ap (λ (t : SourceStore). t.index) (source_of-set_source hashing id f d) ∙ at_index,
      )
    where
      same_file : (i j : VersionIndex) → index_file i ≡ index_file j → i ≡ j
      same_file i j p = ground arith
