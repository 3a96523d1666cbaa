-- ===== src/Codec/Reader/Ends.antt =====
-- Termination of the loops that read in crates/core/src/encryption/blobs.rs.
use backup_sync.Prelude.{
  ℕ, zero, suc, ◌-◌, ◌≤◌, ◌≡◌, refl, ◌≢◌, ◌∙◌, List, [], ◌∷◌, Str, length, Result, ok, err, ◌>>=◌,
  Result-cases, inl, inr, arith,
}
use backup_sync.Codec.Reader.{
  CodecError, out_of_fuel, Grant, late, fails, gives, Reader, granted, read_chunk, read_exact_loop,
  read_exact, exact_after, prefixed,
}

-- A chain whose parts do not run out of fuel does not either.
pub bind_ends {ℓ κ} :
    {A : Type ℓ} {B : Type κ} (m : Result CodecError A) (f : A → Result CodecError B)
    → m ≢ err out_of_fuel
    → ((a : A) → m ≡ ok a → f a ≢ err out_of_fuel)
    → (m >>= f) ≢ err out_of_fuel
bind_ends (ok a) f h g e = g a refl e
bind_ends (err x) f h g e = h cc

granted_ends : (n : ℕ) (bs : Str) (gs : List Grant) → granted n bs gs ≢ err out_of_fuel
granted_ends n bs [] e = ground arith
granted_ends n bs (late ∷ gs) e = ground arith
granted_ends n bs (fails ∷ gs) e = ground arith
granted_ends n bs (gives k ∷ gs) e = ground arith

pub read_chunk_ends : (n : ℕ) (r : Reader) → read_chunk n r ≢ err out_of_fuel
unfolding read_chunk
read_chunk_ends n r = granted_ends n r.bytes r.grants

pub prefixed_ends :
    (got : Str) (m : Result CodecError (Str × Reader))
    → m ≢ err out_of_fuel
    → prefixed got m ≢ err out_of_fuel
prefixed_ends got (ok x) h e = ground arith
prefixed_ends got (err x) h e = h e

exact_after_ends :
    (got : Str × Reader) (more : ℕ → Reader → Result CodecError (Str × Reader)) (n : ℕ)
    → ((k : ℕ) → k ≤ n → more k got.1 ≢ err out_of_fuel)
    → exact_after got (more (suc n - length got.0)) ≢ err out_of_fuel
exact_after_ends ([], r) more n h e = ground arith
exact_after_ends (b ∷ bs, r) more n h e =
    prefixed_ends (b ∷ bs) (more (suc n - length (b ∷ bs)) r) (h _ (omega arith)) e

read_exact_loop_ends :
    (fuel n : ℕ) (r : Reader) → n ≤ fuel → read_exact_loop fuel n r ≢ err out_of_fuel
unfolding read_exact_loop
read_exact_loop_ends fuel zero r h e = ground arith
read_exact_loop_ends zero (suc n) r h e = absurd (omega arith)
read_exact_loop_ends (suc fuel) (suc n) r h e = elim (Result-cases (read_chunk (suc n) r)) [
  | inl (got, c) ↦
      exact_after_ends got (read_exact_loop fuel) n
        (λ k l. read_exact_loop_ends fuel k got.1 (omega arith)) (rw c at e)
  | inr (x, c) ↦ read_chunk_ends (suc n) r (c ∙ (rw c at e))
]

-- A read of `n` bytes ends after at most `n` rounds.
pub read_exact_ends : (n : ℕ) (r : Reader) → read_exact n r ≢ err out_of_fuel
unfolding read_exact
read_exact_ends n r = read_exact_loop_ends n n r (omega arith)
