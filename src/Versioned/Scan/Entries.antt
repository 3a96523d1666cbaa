-- ===== src/Versioned/Scan/Entries.antt =====
-- Coherent entries of a manifest, and the changes of them in `scan_snapshot` (store.rs).
use mathlib.Core.Path.{subst}
use backup_sync.Prelude.{
  ◌≡◌, refl, sym, inl, inr, true, some, [], ◌∷◌, arith, Str, In, Bool-cases, Option-cases,
}
use backup_sync.Map.{Map, insert, contains_key, str_key, In-insert, In-remove, remove}
use backup_sync.Map.Sorted.{IsSorted, insert-IsSorted, remove-IsSorted}
use backup_sync.Versioned.Model.{ManifestEntry}
use backup_sync.Versioned.Disk.{is_lower_hex_sha256}
use backup_sync.Versioned.Scan.{prev_entry, or_insert, is_under}
use backup_sync.Versioned.Scan.Snapshot.{carry_entries}

-- An entry under its own path, whose digest has the form that names a blob.
abbrev pub EntryOk : Str → ManifestEntry → Type 0
EntryOk k e = (e.rel_path ≡ k) × ((h : Str) → e.sha256 ≡ some h → is_lower_hex_sha256 h ≡ true)

pub record IsCoherent (m : Map Str ManifestEntry) : Type 0 where
  pub sorted : IsSorted m
  pub entries : (k : Str) (e : ManifestEntry) → In (k, e) m → EntryOk k e

pub nil-IsCoherent : IsCoherent []
nil-IsCoherent = record { sorted = tt; entries = λ k e p. absurd p }

pub insert-IsCoherent :
    (k : Str) (e : ManifestEntry) (m : Map Str ManifestEntry)
    → EntryOk k e
    → IsCoherent m
    → IsCoherent (insert k e m)
insert-IsCoherent k e m h c = record {
  sorted = insert-IsSorted k e m c.sorted;
  entries = λ j d p. elim (In-insert k e m (j, d) p) [
    | inl same ↦ subst (λ (t : Str × ManifestEntry). EntryOk t.0 t.1) (sym same) h
    | inr old ↦ c.entries j d old
  ];
}

pub remove-IsCoherent :
    (k : Str) (m : Map Str ManifestEntry) → IsCoherent m → IsCoherent (remove k m)
remove-IsCoherent k m c = record {
  sorted = remove-IsSorted k m c.sorted;
  entries = λ j d p. c.entries j d (In-remove k m (j, d) p);
}

pub or_insert-IsCoherent :
    (k : Str) (e : ManifestEntry) (m : Map Str ManifestEntry)
    → EntryOk k e
    → IsCoherent m
    → IsCoherent (or_insert k e m)
or_insert-IsCoherent k e m h c = elim (Bool-cases (contains_key k m)) [
  | inl old ↦ rw old c
  | inr new ↦ rw new (insert-IsCoherent k e m h c)
]

pub carry_entries-IsCoherent :
    (rel_prefix : Str) (prev entries : Map Str ManifestEntry)
    → ((k : Str) (e : ManifestEntry) → In (k, e) prev → EntryOk k e)
    → IsCoherent entries
    → IsCoherent (carry_entries rel_prefix prev entries)
unfolding carry_entries
carry_entries-IsCoherent rel_prefix [] entries h c = c
carry_entries-IsCoherent rel_prefix ((k, e) ∷ prev) entries h c =
    let tail = λ (j : Str) (d : ManifestEntry) (p : In (j, d) prev). h j d (inr p) in
    elim (Bool-cases (is_under rel_prefix e.rel_path)) [
      | inl under ↦ rw under (
          carry_entries-IsCoherent rel_prefix prev (or_insert e.rel_path e entries) tail
            (or_insert-IsCoherent e.rel_path e entries (refl, (h k e (inl refl)).1) c))
      | inr not_under ↦ rw not_under (carry_entries-IsCoherent rel_prefix prev entries tail c)
    ]

pub prev_entry-hex :
    (rel_path : Str) (m : Map Str ManifestEntry)
    → ((k : Str) (e : ManifestEntry) → In (k, e) m → EntryOk k e)
    → (e : ManifestEntry) → prev_entry rel_path m ≡ some e
    → (h : Str) → e.sha256 ≡ some h
    → is_lower_hex_sha256 h ≡ true
unfolding prev_entry
prev_entry-hex rel_path [] ok_entries e p h q = cc
prev_entry-hex rel_path ((k, d) ∷ m) ok_entries e p h q =
    elim (Option-cases (prev_entry rel_path m)) [
      | inr (later, there) ↦
          prev_entry-hex rel_path m (λ j c r. ok_entries j c (inr r)) e (ground (arith, there, p)) h
            q
      | inl gone ↦
          let same : d ≡ e = ground (arith, gone, p) in (ok_entries k d (inl refl)).1 h (rw same q)
    ]
