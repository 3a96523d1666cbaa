-- ===== src/Versioned/Restore/Plan/Planned.antt =====
-- The files that `preflight_restore` (restore.rs) plans.
use mathlib.Core.List.{append_assoc}
use mathlib.Core.Path.{subst}
use backup_sync.Prelude.{
  ℕ, ◌≡◌, ◌≢◌, refl, sym, ◌∙◌, ap, ◌⊎◌, inl, inr, Bool, true, false, Option, none, some, List, [],
  ◌∷◌, ◌++◌, arith, In, Str, Result, ok, err, bind_ok, Bool-cases, if◌then◌else◌,
}
use mathlib.Core.List.{append-nil}
use backup_sync.Map.{Map}
use backup_sync.Versioned.Model.{ManifestEntry, Manifest, is_file}
use backup_sync.Versioned.Disk.{Disk, Hashing, blob_path, blob_exists}
use backup_sync.Versioned.Blobs.Entries.{HasBlob}
use backup_sync.Versioned.Restore.{Missing, RestoreError, missing_content}
use backup_sync.Versioned.Restore.Plan.{
  Preflight, no_preflight, or_missing_content, plan_hash, plan_entry, plan_entries,
  ensure_restore_free_space, preflight_restore,
}
use backup_sync.Versioned.Restore.Request.{RestoreConfig, PlannedFile}

module _ (hashing : Hashing) where
  abbrev pub plan_of : ManifestEntry → Str → PlannedFile
  plan_of entry hash = record {
    rel_path = entry.rel_path;
    blob_path = blob_path hashing hash;
    expected_sha256 = hash;
    mtime_unix = entry.mtime_unix;
    mtime_nanos = entry.mtime_nanos;
  }

  abbrev pub add_file : ManifestEntry → Bool → Option Str → List PlannedFile → List PlannedFile
  add_file entry true (some hash) rest = plan_of entry hash ∷ rest
  add_file entry true none rest = rest
  add_file entry false digest rest = rest

  -- One for each file that has a digest, in the order of the manifest.
  abbrev pub planned_files : Map Str ManifestEntry → List PlannedFile
  planned_files [] = []
  planned_files ((key, entry) ∷ entries) =
      add_file entry (is_file entry.kind) entry.sha256 (planned_files entries)

  -- The plan of a file.
  abbrev pub IsPlanOf : PlannedFile → ManifestEntry → Type 0
  IsPlanOf pf entry =
      (is_file entry.kind ≡ true)
      × ((hash : Str) × ((entry.sha256 ≡ some hash) × (pf ≡ plan_of entry hash)))

  planned_head :
      (entry : ManifestEntry) (file : Bool) (digest : Option Str) (pf : PlannedFile)
      (rest : List PlannedFile)
      → is_file entry.kind ≡ file
      → entry.sha256 ≡ digest
      → In pf (add_file entry file digest rest)
      → IsPlanOf pf entry ⊎ In pf rest
  planned_head entry false digest pf rest f d i = inr i
  planned_head entry true none pf rest f d i = inr i
  planned_head entry true (some hash) pf rest f d (inl it) = inl (f, (hash, (d, it)))
  planned_head entry true (some hash) pf rest f d (inr later) = inr later

  -- Every plan is that of an entry.
  pub planned_files_sound :
      (entries : Map Str ManifestEntry) (pf : PlannedFile)
      → In pf (planned_files entries)
      → (p : Str × ManifestEntry) × (In p entries × IsPlanOf pf p.1)
  planned_files_sound [] pf i = absurd i
  planned_files_sound ((key, entry) ∷ entries) pf i =
      elim (planned_head entry (is_file entry.kind) entry.sha256 pf (planned_files entries) refl
        refl i) [
          | inl it ↦ ((key, entry), (inl refl, it))
          | inr later ↦
              let (p, (at, it)) = planned_files_sound entries pf later in (p, (inr at, it))
        ]

  planned_tail :
      (entry : ManifestEntry) (file : Bool) (digest : Option Str) (pf : PlannedFile)
      (rest : List PlannedFile)
      → In pf rest
      → In pf (add_file entry file digest rest)
  planned_tail entry false digest pf rest i = i
  planned_tail entry true none pf rest i = i
  planned_tail entry true (some hash) pf rest i = inr i

  -- Every file with a digest has its plan.
  pub planned_files_complete :
      (entries : Map Str ManifestEntry) (p : Str × ManifestEntry) (hash : Str)
      → In p entries
      → is_file p.1.kind ≡ true
      → p.1.sha256 ≡ some hash
      → In (plan_of p.1 hash) (planned_files entries)
  planned_files_complete [] p hash i f d = absurd i
  planned_files_complete ((key, entry) ∷ entries) p hash (inr later) f d =
      planned_tail entry (is_file entry.kind) entry.sha256 (plan_of p.1 hash)
        (planned_files entries) (planned_files_complete entries p hash later f d)
  planned_files_complete ((key, entry) ∷ entries) p hash (inl it) f d =
      let same : p.1 ≡ entry = ap (λ (x : Str × ManifestEntry). x.1) it in
      let is : is_file entry.kind ≡ true = subst (λ e. is_file e.kind ≡ true) same f in
      let digest : entry.sha256 ≡ some hash = subst (λ e. e.sha256 ≡ some hash) same d in
      rw (is, digest) (inl (ap (λ e. plan_of e hash) same))

  module _ (cfg : RestoreConfig) (store : Disk) where
    abbrev pub AllHaveBlobs : Map Str ManifestEntry → Type 0
    AllHaveBlobs entries = (p : Str × ManifestEntry) → In p entries → HasBlob hashing store p.1

    append_not_nil : (xs : List Missing) (x : Missing) → xs ++ x ∷ [] ≢ []
    append_not_nil [] x h = cc
    append_not_nil (y ∷ xs) x h = cc

    -- One more entry, with which nothing is missing.
    plan_one :
        (entry : ManifestEntry) (file : Bool) (digest : Option Str) (s : Preflight)
        (rest : List PlannedFile)
        → let s' = if file then plan_hash cfg hashing store entry digest s else s in
          s'.missing ≡ []
          → (s.missing ≡ [])
            × ((s'.planned ++ rest ≡ s.planned ++ add_file entry file digest rest)
                × (file ≡ true
                    → (h : Str) × ((digest ≡ some h) × (blob_exists hashing store h ≡ true))))
    plan_one entry false digest s rest h = (h, (refl, λ f. cc))
    plan_one entry true none s rest h = absurd (append_not_nil s.missing _ h)
    plan_one entry true (some hash) s rest h = elim (Bool-cases (blob_exists hashing store hash)) [
      | inl there ↦ rw there (
        rw there at h,
        (append_assoc s.planned (plan_of entry hash ∷ []) rest, λ f. (hash, (refl, there))),
      )
      | inr gone ↦ absurd (append_not_nil s.missing _ (rw gone at h))
    ]

    plan_entries_found :
        (entries : Map Str ManifestEntry) (s : Preflight)
        → (plan_entries cfg hashing store entries s).missing ≡ []
        → (s.missing ≡ [])
          × (((plan_entries cfg hashing store entries s).planned
                ≡ s.planned ++ planned_files entries)
              × AllHaveBlobs entries)
    unfolding plan_entries
    plan_entries_found [] s h = (h, (sym (append-nil s.planned), λ p i. absurd i))
    plan_entries_found ((key, entry) ∷ entries) s h =
        let (before, (same, rest)) =
          plan_entries_found entries (plan_entry cfg hashing store entry s) h in
        let (none_missing, (one, has)) =
          plan_one entry (is_file entry.kind) entry.sha256 s (planned_files entries) before in
        (
          none_missing,
          (
            same ∙ one,
            λ p i. elim i [
              | inl it ↦ subst (λ (x : Str × ManifestEntry). HasBlob hashing store x.1) (sym it) has
              | inr later ↦ rest p later
            ],
          ),
        )

    -- Where each file has its blob, nothing is missing.
    plan_one_has :
        (entry : ManifestEntry) (file : Bool) (digest : Option Str) (s : Preflight)
        → (file ≡ true → (h : Str) × ((digest ≡ some h) × (blob_exists hashing store h ≡ true)))
        → s.missing ≡ []
        → (if file then plan_hash cfg hashing store entry digest s else s).missing ≡ []
    plan_one_has entry false digest s has h = h
    plan_one_has entry true none s has h = let (x, (d, b)) = has refl in absurd (ground (arith, d))
    plan_one_has entry true (some hash) s has h =
        let (x, (d, b)) = has refl in
        let same : hash ≡ x = ground (arith, d) in
        let there : blob_exists hashing store hash ≡ true =
          subst (λ y. blob_exists hashing store y ≡ true) (sym same) b in
        rw there h

    pub plan_entries_has :
        (entries : Map Str ManifestEntry) (s : Preflight)
        → AllHaveBlobs entries
        → s.missing ≡ []
        → (plan_entries cfg hashing store entries s).missing ≡ []
    unfolding plan_entries
    plan_entries_has [] s has h = h
    plan_entries_has ((key, entry) ∷ entries) s has h =
        plan_entries_has entries (plan_entry cfg hashing store entry s) (λ p i. has p (inr i))
          (plan_one_has entry (is_file entry.kind) entry.sha256 s (has (key, entry) (inl refl)) h)

    or_missing_content-ok :
        (s r : Preflight) → or_missing_content s ≡ ok r → (s.missing ≡ []) × (s ≡ r)
    or_missing_content-ok s r h = go s.missing refl h
      where
        go :
            (m : List Missing)
            → s.missing ≡ m
            → elim m [ [] ↦ ok s | x ∷ xs ↦ err (missing_content (x ∷ xs)) ] ≡ ok r
            → (s.missing ≡ []) × (s ≡ r)
        go [] e h = (e, ground (arith, h))
        go (x ∷ xs) e h = cc

    -- What a preflight plans, if it succeeds, and what it has found.
    pub preflight_restore_planned :
        (free_space : Result RestoreError ℕ) (manifest : Manifest) (planned : List PlannedFile)
        (bytes : ℕ)
        → preflight_restore cfg hashing store free_space manifest ≡ ok (planned, bytes)
        → (planned ≡ planned_files manifest.entries) × AllHaveBlobs manifest.entries
    unfolding preflight_restore
    preflight_restore_planned free_space manifest planned bytes h =
        let found = plan_entries cfg hashing store manifest.entries no_preflight in
        let (s, at, rest) = bind_ok (or_missing_content found) _ (planned, bytes) h in
        let (space, fits, last) =
          bind_ok (ensure_restore_free_space cfg free_space s.total_bytes) _ (planned, bytes)
            rest in
        let (none_missing, same) = or_missing_content-ok found s at in
        let (_, (all, has)) = plan_entries_found manifest.entries no_preflight none_missing in
        let it : s.planned ≡ planned = ground (arith, last) in
        (sym it ∙ ap (λ (x : Preflight). x.planned) (sym same) ∙ all, has)
