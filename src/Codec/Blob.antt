-- ===== src/Codec/Blob.antt =====
-- `BlobCodec` of crates/core/src/encryption/blobs.rs: a file's bytes to a blob's, and back.
use backup_sync.Prelude.{
  ℕ, max, Bool, true, false, Option, none, some, [], ◌++◌, Str, str_eq, not, if◌then◌else◌, length,
  Result, ok, err, ◌>>=◌, bail_if, ◌>>◌,
}
use backup_sync.Prelude.Int.{ℤ}
use backup_sync.Codec.Reader.{CodecError, no_key, Reader}
use backup_sync.Codec.Payload.{Zstd, Aead}
use backup_sync.Codec.Encode.{
  sat_add, compress_file_to_writer_zstd_chunked, encrypt_file_to_writer_enc_stream,
}
use backup_sync.Codec.Decode.{
  ProbedMagic, encrypted, compressed, plain, probe_magic_prefix, read_encrypted_header,
  read_compressed_header, copy_plain_stream, hash_plain_loop, rounds, decompress_stream_to_writer,
  decompress_stream_to_hasher, decrypt_stream_to_writer, decrypt_stream_to_hasher,
}

pub record BlobCipher : Type 0 where
  pub key : Str
  pub chunk_bytes : ℕ

pub record BlobCodec : Type 0 where
  pub cipher : Option BlobCipher
  pub write_compression_enabled : Bool
  pub write_compression_chunk_bytes : ℕ
  pub write_compression_zstd_level : ℤ

-- The parts of the configuration that the codec reads.
pub record CodecConfig : Type 0 where
  pub encryption_enabled : Bool
  pub key_id : Option Str
  pub encryption_blob_chunk_bytes : ℕ
  pub compression_enabled : Bool
  pub compression_blob_chunk_bytes : ℕ
  pub zstd_level : ℤ

-- A key file that was loaded.
pub record KeyInfo : Type 0 where
  pub key_id : Str
  pub key : Str

pub data KeyError : Type 0 where
  key_id_missing key_file_unreadable key_id_mismatch : KeyError

abbrev pub expected_id : Option Str → Result KeyError Str
expected_id none = err key_id_missing
expected_id (some id) = ok id

-- `load_key_file` at the resolved path is an argument; a path that cannot be resolved fails first.
module _ (resolved : Result KeyError Str) (load_key_file : Str → Result KeyError KeyInfo) where
  -- The rest of `BlobCipher::from_config` when encryption is enabled.
  abbrev checked_key : CodecConfig → Result KeyError (Option BlobCipher)
  checked_key cfg = do
    key_path ← resolved
    expected ← expected_id cfg.key_id
    info ← load_key_file key_path
    bail_if (not (str_eq info.key_id expected)) key_id_mismatch
    ok (
        some (record {
          key = info.key;
          chunk_bytes =
              if cfg.compression_enabled
              then max cfg.compression_blob_chunk_bytes 1
              else max cfg.encryption_blob_chunk_bytes 1;
        }))

  unfoldable pub cipher_from_config : CodecConfig → Result KeyError (Option BlobCipher)
  cipher_from_config cfg = if cfg.encryption_enabled then checked_key cfg else ok none

  unfoldable pub codec_from_config : CodecConfig → Result KeyError BlobCodec
  unfolding cipher_from_config
  codec_from_config cfg = do
    cipher ← cipher_from_config cfg
    ok (record {
      cipher = cipher;
      write_compression_enabled = cfg.compression_enabled;
      write_compression_chunk_bytes = max cfg.compression_blob_chunk_bytes 1;
      write_compression_zstd_level = cfg.zstd_level;
    })

-- `copy_plain_file_to_writer`; `src` is the outcome of opening the file.
unfoldable pub copy_plain_file_to_writer :
    Result CodecError Reader → Str → Result CodecError (Str × ℕ)
unfolding copy_plain_stream
copy_plain_file_to_writer src out = do r ← src; copy_plain_stream r out

module _ (zstd : Zstd) (aead : Aead) where
  -- `nonce` is what the random source gives.
  abbrev pub written_by :
      BlobCodec
      → Str
      → Option BlobCipher
      → Bool
      → Result CodecError Reader
      → Str
      → Result CodecError (Str × ℕ)
  written_by codec nonce (some cipher) true src out =
      encrypt_file_to_writer_enc_stream zstd aead nonce src out cipher.chunk_bytes cipher.key
        (some codec.write_compression_zstd_level)
  written_by codec nonce (some cipher) false src out =
      encrypt_file_to_writer_enc_stream zstd aead nonce src out cipher.chunk_bytes cipher.key none
  written_by codec nonce none true src out =
      compress_file_to_writer_zstd_chunked zstd src out codec.write_compression_chunk_bytes
        codec.write_compression_zstd_level
  written_by codec nonce none false src out = copy_plain_file_to_writer src out

  unfoldable pub write_blob_from_file_to_writer :
      BlobCodec → Str → Result CodecError Reader → Str → Result CodecError (Str × ℕ)
  unfolding encrypt_file_to_writer_enc_stream compress_file_to_writer_zstd_chunked
      copy_plain_file_to_writer
  write_blob_from_file_to_writer codec nonce src out =
      written_by codec nonce codec.cipher codec.write_compression_enabled src out

  -- What `copy_blob_plaintext_to_writer_impl` does after the probe.
  abbrev pub copied :
      Option BlobCipher → Str → (ProbedMagic × Str) × Reader → Result CodecError (Str × ℕ)
  copied none out ((encrypted, prefix), r) = err no_key
  copied (some cipher) out ((encrypted, prefix), r) = do
    (header, r1) ← read_encrypted_header r
    decrypt_stream_to_writer zstd aead cipher.key r1 header out
  copied cipher out ((compressed, prefix), r) = do
    (header, r1) ← read_compressed_header r
    decompress_stream_to_writer zstd r1 out
  copied cipher out ((plain, prefix), r) = do
    (copy, n) ← copy_plain_stream r (out ++ prefix)
    ok (copy, sat_add n (length prefix))

  -- `blob` is the outcome of opening the blob.
  unfoldable pub copy_blob_plaintext_to_writer :
      Option BlobCipher → Result CodecError Reader → Str → Result CodecError (Str × ℕ)
  unfolding probe_magic_prefix read_encrypted_header read_compressed_header decrypt_stream_to_writer
      decompress_stream_to_writer copy_plain_stream sat_add
  copy_blob_plaintext_to_writer cipher blob out = do
    r ← blob
    start ← probe_magic_prefix r
    copied cipher out start

  -- What `sha256_plaintext_blob_impl` hashes after the probe.
  abbrev pub hashed : Option BlobCipher → (ProbedMagic × Str) × Reader → Result CodecError Str
  hashed none ((encrypted, prefix), r) = err no_key
  hashed (some cipher) ((encrypted, prefix), r) = do
    (header, r1) ← read_encrypted_header r
    decrypt_stream_to_hasher zstd aead cipher.key r1 header []
  hashed cipher ((compressed, prefix), r) = do
    (header, r1) ← read_compressed_header r
    decompress_stream_to_hasher zstd r1 []
  hashed cipher ((plain, prefix), r) = hash_plain_loop (rounds r) prefix r

  -- `sha256_hex` is the hash and its hexadecimal form.
  unfoldable pub sha256_plaintext_blob :
      (Str → Str) → Option BlobCipher → Result CodecError Reader → Result CodecError Str
  unfolding probe_magic_prefix read_encrypted_header read_compressed_header decrypt_stream_to_hasher
      decompress_stream_to_hasher hash_plain_loop
  sha256_plaintext_blob sha256_hex cipher blob = do
    r ← blob
    start ← probe_magic_prefix r
    plaintext ← hashed cipher start
    ok (sha256_hex plaintext)
