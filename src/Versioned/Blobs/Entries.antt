-- ===== src/Versioned/Blobs/Entries.antt =====
-- Entries of a manifest with the blobs of their files: what `write_missing_blobs_for_snapshot` (store.rs)
-- keeps while it goes through the paths.
use mathlib.Core.Path.{subst}
use backup_sync.Prelude.{
  ◌≡◌, sym, true, some, List, ◌∷◌, ◌∙◌, ◌⊎◌, Str, str_eq, str_eq_iff, In, Bool-cases, arith, inl,
  inr,
}
use backup_sync.Map.{Map, get, insert, remove, str_key, pair_key, get-insert, get-remove}
use backup_sync.Versioned.Model.{ManifestEntry, is_file}
use backup_sync.Versioned.Disk.{Disk, Hashing, blob_path, blob_exists}
use backup_sync.Versioned.Blobs.Written.{Grown}

-- A file's digest is known, and its blob is on the disk.
abbrev pub HasBlob : Hashing → Disk → ManifestEntry → Type 0
HasBlob hashing d e =
    is_file e.kind ≡ true → (h : Str) × ((e.sha256 ≡ some h) × (blob_exists hashing d h ≡ true))

-- Every file of the entries has its blob.
abbrev pub IsBacked : Hashing → Disk → Map Str ManifestEntry → Type 0
IsBacked hashing d m = (k : Str) (e : ManifestEntry) → get k m ≡ some e → HasBlob hashing d e

pub HasBlob_grown :
    (hashing : Hashing) (d e : Disk) (x : ManifestEntry)
    → Grown hashing d e
    → HasBlob hashing d x
    → HasBlob hashing e x
HasBlob_grown hashing d e x g h is =
    let (s, (q, b)) = h is in (s, (q, g.blobs_stay (blob_path hashing s) b))

-- Every file has its blob, but for those of the paths to come.
abbrev pub BackedBut : Hashing → Disk → Map Str ManifestEntry → List Str → Type 0
BackedBut hashing d m paths =
    (k : Str) (e : ManifestEntry) → get k m ≡ some e → In k paths ⊎ HasBlob hashing d e

abbrev pub but_grown :
    (hashing : Hashing) (d e : Disk) (m : Map Str ManifestEntry) (paths : List Str)
    → Grown hashing d e
    → BackedBut hashing d m paths
    → BackedBut hashing e m paths
but_grown hashing d e m paths g b k x p = elim (b k x p) [
  | inl later ↦ inl later
  | inr has ↦ inr (HasBlob_grown hashing d e x g has)
]

pub but_insert :
    (hashing : Hashing) (d : Disk) (m : Map Str ManifestEntry) (r : Str) (x : ManifestEntry)
    (paths : List Str)
    → HasBlob hashing d x
    → BackedBut hashing d m (r ∷ paths)
    → BackedBut hashing d (insert r x m) paths
but_insert hashing d m r x paths has b k e p =
    let q = sym (get-insert r k x m) ∙ p in
    elim (Bool-cases (str_eq r k)) [
      | inl same ↦
          let it : x ≡ e = ground (arith, q, same) in inr (subst (HasBlob hashing d) it has)
      | inr other ↦ elim (b k e (ground (arith, q, other))) [
        | inl (inl here) ↦ absurd (ground (arith, other, (str_eq_iff r k).1 (sym here)))
        | inl (inr later) ↦ inl later
        | inr old ↦ inr old
      ]
    ]

pub but_remove :
    (hashing : Hashing) (d : Disk) (m : Map Str ManifestEntry) (r : Str) (paths : List Str)
    → BackedBut hashing d m (r ∷ paths)
    → BackedBut hashing d (remove r m) paths
but_remove hashing d m r paths b k e p =
    let q = sym (get-remove r k m) ∙ p in
    elim (Bool-cases (str_eq r k)) [
      | inl same ↦ absurd (ground (arith, q, same))
      | inr other ↦ elim (b k e (ground (arith, q, other))) [
        | inl (inl here) ↦ absurd (ground (arith, other, (str_eq_iff r k).1 (sym here)))
        | inl (inr later) ↦ inl later
        | inr old ↦ inr old
      ]
    ]

-- The entry of the path at hand has its blob.
pub but_done :
    (hashing : Hashing) (d : Disk) (m : Map Str ManifestEntry) (r : Str) (paths : List Str)
    → ((e : ManifestEntry) → get r m ≡ some e → HasBlob hashing d e)
    → BackedBut hashing d m (r ∷ paths)
    → BackedBut hashing d m paths
but_done hashing d m r paths has b k e p = elim (b k e p) [
  | inl (inl here) ↦ inr (has e (subst (λ t. get t m ≡ some e) here p))
  | inl (inr later) ↦ inl later
  | inr old ↦ inr old
]
