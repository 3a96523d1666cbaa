-- ===== src/Codec/Refusals.antt =====
-- What `copy_blob_plaintext_to_writer` of crates/core/src/encryption/blobs.rs refuses.
use backup_sync.Prelude.{◌≡◌, refl, ◌∙◌, false, none, [], ◌++◌, Str, length, ok, err, arith}
use backup_sync.Codec.Reader.{no_key, Reader}
use backup_sync.Codec.Reader.Steady.{IsSteady}
use backup_sync.Codec.Payload.{Zstd, Aead}
use backup_sync.Codec.Encode.{enc_magic, sat_add}
use backup_sync.Codec.Decode.{rounds, copy_plain_stream}
use backup_sync.Codec.Blob.{
  BlobCodec, copy_plain_file_to_writer, write_blob_from_file_to_writer,
  copy_blob_plaintext_to_writer,
}
use backup_sync.Codec.RoundTrip.Headers.{probe_encrypted}
use backup_sync.Codec.RoundTrip.Plain.{copy_plain_loop_steady}

module _ (zstd : Zstd) (aead : Aead) where
  without_key :
      (r : Reader) (rest : Str)
      → IsSteady r
      → r.bytes ≡ enc_magic ++ rest
      → copy_blob_plaintext_to_writer zstd aead none (ok r) [] ≡ err no_key
  unfolding copy_blob_plaintext_to_writer
  without_key r rest s e = let (r1, p, left, s1) = probe_encrypted r rest s e in rw p refl

  -- With encryption and compression off, a file that starts with the bytes of the encryption magic,
  -- and whose reads do not fail, is written as a blob, byte for byte, and no reading of that blob
  -- gives it back: each whose reads do not fail is refused for want of a key.
  pub plain_file_with_magic :
      (codec : BlobCodec) (nonce : Str) (source : Reader) (rest : Str)
      → codec.cipher ≡ none
      → codec.write_compression_enabled ≡ false
      → source.bytes ≡ enc_magic ++ rest
      → IsSteady source
      → (write_blob_from_file_to_writer zstd aead codec nonce (ok source) []
          ≡ ok (source.bytes, sat_add 0 (length source.bytes)))
        × ((r : Reader)
            → r.bytes ≡ source.bytes
            → IsSteady r
            → copy_blob_plaintext_to_writer zstd aead codec.cipher (ok r) [] ≡ err no_key)
  unfolding write_blob_from_file_to_writer copy_plain_file_to_writer copy_plain_stream
  plain_file_with_magic codec nonce source rest off plain same s = (
    rw (off, plain) (copy_plain_loop_steady (rounds source) [] source (omega arith) s),
    λ r copy steady. rw off (without_key r rest steady (copy ∙ same)),
  )
