-- ===== src/Codec/Frame.antt =====
-- The frames of an encoded blob in crates/core/src/encryption/blobs.rs: `write_framed_chunk` and
-- `read_framed_chunk`.
pub mod RoundTrip
use backup_sync.Prelude.{
  ℕ, ◌+◌, ◌*◌, ◌/◌, ◌%◌, ◌^◌, Bool, true, false, List, [], ◌∷◌, ◌++◌, ltb, leb, if◌then◌else◌, Str,
  length, Result, ok, err, ◌>>=◌,
}
use backup_sync.Codec.Reader.{CodecError, too_large, Reader, read_exact}

-- `u32::to_be_bytes`
unfoldable pub to_be_bytes : ℕ → Str
to_be_bytes n = n / 2 ^ 24 % 256 ∷ n / 2 ^ 16 % 256 ∷ n / 2 ^ 8 % 256 ∷ n % 256 ∷ []

-- `u32::from_be_bytes`, of four bytes.
unfoldable pub from_be_bytes : Str → ℕ
from_be_bytes (a ∷ b ∷ c ∷ d ∷ []) = a * 2 ^ 24 + b * 2 ^ 16 + c * 2 ^ 8 + d
from_be_bytes _ = 0

-- `len |= 0x8000_0000` on a `u32`, if the chunk is the last.
unfoldable pub with_mark : Bool → ℕ → ℕ
with_mark true len = len % 2 ^ 31 + 2 ^ 31
with_mark false len = len

-- The output is what was written to it so far.
unfoldable pub write_framed_chunk : Str → Str → Bool → Result CodecError Str
unfolding to_be_bytes with_mark
write_framed_chunk out chunk is_last =
    if ltb 0x7FFF_FFFF (length chunk)
    then err too_large
    else ok ((out ++ to_be_bytes (with_mark is_last (length chunk % 2 ^ 32))) ++ chunk)

-- `raw & 0x8000_0000 != 0`
abbrev pub has_mark : ℕ → Bool
has_mark raw = leb (2 ^ 31) raw

-- `raw & 0x7FFF_FFFF`
abbrev pub without_mark : ℕ → ℕ
without_mark raw = raw % 2 ^ 31

unfoldable pub read_framed_chunk : Reader → Result CodecError ((Str × Bool) × Reader)
unfolding from_be_bytes
read_framed_chunk r = do
  (len_bytes, r1) ← read_exact 4 r
  (buf, r2) ← read_exact (without_mark (from_be_bytes len_bytes)) r1
  ok ((buf, has_mark (from_be_bytes len_bytes)), r2)
