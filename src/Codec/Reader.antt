-- ===== src/Codec/Reader.antt =====
-- Reads of an open file in crates/core/src/encryption/blobs.rs: `read_chunk`, `read_exact_timeout`
-- and the loop of `probe_magic_prefix`.
pub mod Steady
pub mod Probe
pub mod Ends
use backup_sync.Prelude.{
  ℕ, zero, suc, ◌-◌, List, [], ◌∷◌, ◌++◌, Str, length, take, drop, min, Result, ok, err, ◌>>=◌,
}

pub data CodecError : Type 0 where
  io timed_out unexpected_eof too_large cipher_failed zstd_failed : CodecError
  unsupported_version unsupported_algorithm payload_too_short no_key out_of_fuel : CodecError

-- How one call of `read` comes out, after the test of the time limit before it: too late, an
-- error, or at most as many bytes as the call asks for and one more than the number given.
pub data Grant : Type 0 where
  late fails : Grant
  gives : ℕ → Grant

-- An open file: the bytes ahead, and how the next reads come out. Further reads give all they can.
pub record Reader : Type 0 where
  pub bytes : Str
  pub grants : List Grant

abbrev pub granted : ℕ → Str → List Grant → Result CodecError (Str × Reader)
granted n bs [] = ok (take n bs, record { bytes = drop n bs; grants = [] })
granted n bs (late ∷ gs) = err timed_out
granted n bs (fails ∷ gs) = err io
granted n bs (gives k ∷ gs) =
    let m = min n (suc k) in ok (take m bs, record { bytes = drop m bs; grants = gs })

-- `read_chunk`, into a buffer of `n` bytes.
unfoldable pub read_chunk : ℕ → Reader → Result CodecError (Str × Reader)
read_chunk n r = granted n r.bytes r.grants

-- `filled += n`
abbrev pub prefixed : Str → Result CodecError (Str × Reader) → Result CodecError (Str × Reader)
prefixed got (ok (rest, after)) = ok (got ++ rest, after)
prefixed got (err e) = err e

-- What `read_exact_timeout` does with what a read gave: at the end of the file it fails.
abbrev pub exact_after :
    Str × Reader → (Reader → Result CodecError (Str × Reader)) → Result CodecError (Str × Reader)
exact_after ([], r) more = err unexpected_eof
exact_after (b ∷ bs, r) more = prefixed (b ∷ bs) (more r)

-- `read_exact_timeout`, for the `n` bytes that are still to be filled.
unfoldable pub read_exact_loop : ℕ → ℕ → Reader → Result CodecError (Str × Reader)
unfolding read_chunk
read_exact_loop fuel zero r = ok ([], r)
read_exact_loop zero (suc n) r = err out_of_fuel
read_exact_loop (suc fuel) (suc n) r = do
  got ← read_chunk (suc n) r
  exact_after got (read_exact_loop fuel (suc n - length got.0))

unfoldable pub read_exact : ℕ → Reader → Result CodecError (Str × Reader)
unfolding read_exact_loop
read_exact n r = read_exact_loop n n r

-- What the loop of `probe_magic_prefix` does with what a read gave: at the end of the file it stops.
abbrev pub probe_after :
    Str × Reader → (Reader → Result CodecError (Str × Reader)) → Result CodecError (Str × Reader)
probe_after ([], r) more = ok ([], r)
probe_after (b ∷ bs, r) more = prefixed (b ∷ bs) (more r)

unfoldable pub probe_loop : ℕ → ℕ → Reader → Result CodecError (Str × Reader)
unfolding read_chunk
probe_loop fuel zero r = ok ([], r)
probe_loop zero (suc n) r = err out_of_fuel
probe_loop (suc fuel) (suc n) r = do
  got ← read_chunk (suc n) r
  probe_after got (probe_loop fuel (suc n - length got.0))
