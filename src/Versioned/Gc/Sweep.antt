-- ===== src/Versioned/Gc/Sweep.antt =====
-- The removing loop of `gc_unreferenced_blobs` (store.rs).
use mathlib.Core.Path.{subst}
use backup_sync.Prelude.{
  ◌≡◌, refl, sym, Bool, true, false, ◌||◌, ◌&&◌, some, List, [], ◌∷◌, if◌then◌else◌, Str, str_eq,
  Result, ok, err, is_ok, In, Bool-cases, arith, inl, inr, ap,
}
use backup_sync.Map.{Map, get, pair_key, str_key, pair_beq_iff}
use backup_sync.Versioned.Prune.{contains}
use backup_sync.Versioned.Disk.{Disk, StoreError}
use backup_sync.Versioned.Gc.{GcIo, referenced_hashes, sweep, sweep_disk, gc_unreferenced_blobs}
use backup_sync.Versioned.Gc.Referenced.{IsReferenced, In-contains, referenced_hashes_complete}

module _ (io : GcIo) where
  pub sweep_keeps :
      (hs : List Str) (blobs : Map (Str × Str) Str) (k : Str × Str) (b : Str)
      → contains k.1 hs ≡ true
      → get k blobs ≡ some b
      → get k (sweep io hs blobs).1 ≡ some b
  unfolding sweep get
  sweep_keeps hs [] k b c p = p
  sweep_keeps hs ((j, x) ∷ blobs) k b c p = elim (Bool-cases (str_eq j.0 k.0 && str_eq j.1 k.1)) [
    | inl same ↦
        let e = (pair_beq_iff j k).0 same in
        let keep : contains j.1 hs ≡ true =
          subst (λ (t : Str × Str). contains t.1 hs ≡ true) (sym e) c in
        ground (arith, same, keep, p)
    | inr other ↦
        let later = rw other at p in ground (arith, other, p, sweep_keeps hs blobs k b c later)
  ]

  pub sweep_only :
      (hs : List Str) (blobs : Map (Str × Str) Str) (k : Str × Str) (b : Str)
      → In (k, b) (sweep io hs blobs).1
      → In (k, b) blobs
  unfolding sweep
  sweep_only hs [] k b p = p
  sweep_only hs ((j, x) ∷ blobs) k b p = elim (Bool-cases (io.entry_refused j)) [
    | inl stop ↦ rw stop at p
    | inr go ↦ elim (Bool-cases (contains j.1 hs || io.remove_refused j)) [
      | inl keep ↦ elim (rw (go, keep) at p) [
        | inl here ↦ inl here
        | inr later ↦ inr (sweep_only hs blobs k b later)
      ]
      | inr drop ↦ inr (sweep_only hs blobs k b (rw (go, drop) at p))
    ]
  ]

  pub sweep_done :
      (hs : List Str) (blobs : Map (Str × Str) Str) (k : Str × Str) (b : Str)
      → is_ok (sweep io hs blobs).0 ≡ true
      → In (k, b) (sweep io hs blobs).1
      → (contains k.1 hs || io.remove_refused k) ≡ true
  unfolding sweep
  sweep_done hs [] k b o p = absurd p
  sweep_done hs ((j, x) ∷ blobs) k b o p = elim (Bool-cases (io.entry_refused j)) [
    | inl stop ↦ absurd (ground (arith, stop, o))
    | inr go ↦ elim (Bool-cases (contains j.1 hs || io.remove_refused j)) [
      | inl keep ↦ elim (rw (go, keep) at p) [
        | inl here ↦
            subst (λ (t : Str × Str). (contains t.1 hs || io.remove_refused t) ≡ true)
              (sym (ap (λ (t : (Str × Str) × Str). t.0) here)) keep
        | inr later ↦ sweep_done hs blobs k b (rw (go, keep) at o) later
      ]
      | inr drop ↦ sweep_done hs blobs k b (rw (go, drop) at o) (rw (go, drop) at p)
    ]
  ]

  either_way :
      (exists : Bool) (d : Disk) (P : Disk → Type 0)
      → P d
      → P (sweep_disk io (referenced_hashes io d.sources) d).1
      → P (if exists then sweep_disk io (referenced_hashes io d.sources) d else (ok tt, d)).1
  either_way true d P left swept = swept
  either_way false d P left swept = left

  kept_on_disk :
      (d : Disk) (r : Result StoreError (List Str)) (k : Str × Str) (b : Str)
      → ((hs : List Str) → r ≡ ok hs → contains k.1 hs ≡ true)
      → get k d.blobs ≡ some b
      → get k (sweep_disk io r d).1.blobs ≡ some b
  kept_on_disk d (err e) k b c p = p
  kept_on_disk d (ok hs) k b c p = sweep_keeps hs d.blobs k b (c hs refl) p

  -- A blob whose name a readable manifest has as a digest stays, with its bytes, whether the
  -- collection ends or fails.
  pub gc_unreferenced_blobs_keeps_referenced :
      (d : Disk) (k : Str × Str) (b : Str)
      → IsReferenced k.1 d.sources
      → get k d.blobs ≡ some b
      → get k (gc_unreferenced_blobs io d).1.blobs ≡ some b
  unfolding gc_unreferenced_blobs
  gc_unreferenced_blobs_keeps_referenced d k b r p =
      either_way d.sources_exist d (λ e. get k e.blobs ≡ some b) p
        (kept_on_disk d (referenced_hashes io d.sources) k b
          (λ hs q. In-contains k.1 hs (referenced_hashes_complete io d.sources k.1 hs q r)) p)

  swept_disk :
      (d : Disk) (r : Result StoreError (List Str)) (k : Str × Str) (b : Str)
      → In (k, b) (sweep_disk io r d).1.blobs
      → In (k, b) d.blobs
  swept_disk d (err e) k b p = p
  swept_disk d (ok hs) k b p = sweep_only hs d.blobs k b p

  -- No blob appears.
  pub gc_unreferenced_blobs_only :
      (d : Disk) (k : Str × Str) (b : Str)
      → In (k, b) (gc_unreferenced_blobs io d).1.blobs
      → In (k, b) d.blobs
  unfolding gc_unreferenced_blobs
  gc_unreferenced_blobs_only d k b =
      either_way d.sources_exist d (λ e. In (k, b) e.blobs → In (k, b) d.blobs) (λ p. p)
        (swept_disk d (referenced_hashes io d.sources) k b)

  same_sources :
      (d : Disk) (r : Result StoreError (List Str)) → (sweep_disk io r d).1.sources ≡ d.sources
  same_sources d (err e) = refl
  same_sources d (ok hs) = refl

  pub gc_unreferenced_blobs_sources :
      (d : Disk) → (gc_unreferenced_blobs io d).1.sources ≡ d.sources
  unfolding gc_unreferenced_blobs
  gc_unreferenced_blobs_sources d =
      either_way d.sources_exist d (λ e. e.sources ≡ d.sources) refl
        (same_sources d (referenced_hashes io d.sources))
