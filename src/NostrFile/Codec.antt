-- ===== src/NostrFile/Codec.antt =====
-- src/code/nostr_file/codec.rs: what a chunk is on the wire, and what a payload is before it is
-- chunked; with it the places of upload.rs and download.rs that split, seal and open.
pub mod Pieces
pub mod Additional
pub mod Assembly
mod Runs
use ptransfer_cli.Common.{
  ℕ, ◌+◌, ◌*◌, ◌/◌, List, [], ◌∷◌, ◌++◌, Option, none, some, Bool, not, ltb, ◌==◌, length, chunks,
  Result, ok, err, ◌>>=◌, ◌>>◌, ensure, or_err, with_err,
}
use ptransfer_cli.Common.Decimal.{decimal}
use ptransfer_cli.Crypto.Aead.{Aead, Nonce}
use ptransfer_cli.Crypto.Aes
use ptransfer_cli.Crypto.Aes.{encrypt_with_aad, decrypt_with_aad}
use ptransfer_cli.Wire
use ptransfer_cli.Wire.{WireEncoding, deflate_raw, identity}
use ptransfer_cli.Wire.Flate.{Decoder}
use ptransfer_cli.Z85
use ptransfer_cli.NostrFile.{nostr_file_chunk_size, nostr_file_aad_prefix, div_ceil}

-- `PayloadCompression::None` is `plain` here.
pub data PayloadCompression : Type 0 where
  deflate plain : PayloadCompression

pub data Error : Type 0 where
  deflate_failed inflate_failed wrong_size seal_failed too_long decode_failed open_failed oversized
        missing too_large size_mismatch :
      Error

abbrev pub of_encoding : WireEncoding → PayloadCompression
of_encoding deflate_raw = deflate
of_encoding identity = plain

-- `encoder` is the DEFLATE encoder of flate2, which may fail.
unfoldable pub compress_payload :
    (List ℕ → Option (List ℕ)) → List ℕ → PayloadCompression → Result Error (List ℕ)
compress_payload encoder data_bytes plain = ok data_bytes
compress_payload encoder data_bytes deflate = or_err (encoder data_bytes) deflate_failed

module _ (d : Decoder) where
  unfoldable pub decompress_payload : List ℕ → PayloadCompression → ℕ → Result Error (List ℕ)
  decompress_payload payload plain file_size = do
    ensure (length payload == file_size) wrong_size
    ok payload
  decompress_payload payload deflate file_size = do
    pushed ← with_err (Wire.push d (Wire.new d file_size) payload) inflate_failed
    finished ← with_err (Wire.finish d pushed) inflate_failed
    ensure (length (pushed.out ++ finished.out) == file_size) wrong_size
    ok (pushed.out ++ finished.out)

unfoldable pub chunk_aad : List ℕ → ℕ → ℕ → List ℕ
chunk_aad transfer_id index total =
    nostr_file_aad_prefix ++ b':' ∷ (transfer_id ++ b':' ∷ (decimal index ++ b':' ∷ decimal total))

-- The most that Z85 makes of a sealed chunk of `max_size` bytes.
abbrev pub encoded_len_bound : ℕ → ℕ
encoded_len_bound max_size = div_ceil (max_size + Aes.nonce_len + Aes.tag_len) 4 * 5

-- `fetched.push` of a content that decodes.
abbrev pub kept : Result Error (List ℕ) → Option (List ℕ)
kept (ok plaintext) = some plaintext
kept (err e) = none

module _ (aead : Aead) (key : List ℕ) where
  unfoldable pub encode_chunk_content : List ℕ → List ℕ → Nonce → Result Error (List ℕ)
  encode_chunk_content chunk aad nonce = do
    encrypted ← with_err (encrypt_with_aad aead key chunk aad nonce) seal_failed
    ok (Z85.encode encrypted)

  unfoldable pub decode_chunk_content : List ℕ → List ℕ → ℕ → Result Error (List ℕ)
  decode_chunk_content content aad max_size = do
    ensure (not (ltb (encoded_len_bound max_size) (length content))) too_long
    encrypted ← with_err (Z85.decode content) decode_failed
    chunk ← with_err (decrypt_with_aad aead key encrypted aad) open_failed
    ensure (not (ltb max_size (length chunk))) oversized
    ok chunk

  -- What the workers of upload.rs publish for the pieces from `index` on.
  unfoldable pub seal_pieces :
      List ℕ → ℕ → (ℕ → Nonce) → ℕ → List (List ℕ) → Result Error (List (List ℕ))
  seal_pieces transfer_id total nonce index [] = ok []
  seal_pieces transfer_id total nonce index (chunk ∷ rest) = do
    content ← encode_chunk_content chunk (chunk_aad transfer_id index total) (nonce index)
    contents ← seal_pieces transfer_id total nonce (index + 1) rest
    ok (content ∷ contents)

  -- What `fetch_from_relay` of download.rs keeps of an answer for one index: a content that does
  -- not decode leaves the piece missing.
  unfoldable pub open_piece : List ℕ → ℕ → ℕ → ℕ → List ℕ → Option (List ℕ)
  open_piece transfer_id total chunk_size index content =
      kept (decode_chunk_content content (chunk_aad transfer_id index total) chunk_size)

  unfoldable pub open_pieces : List ℕ → ℕ → ℕ → ℕ → List (List ℕ) → List (Option (List ℕ))
  open_pieces transfer_id total chunk_size index [] = []
  open_pieces transfer_id total chunk_size index (content ∷ contents) =
      open_piece transfer_id total chunk_size index content
      ∷ open_pieces transfer_id total chunk_size (index + 1) contents

-- The loop of `assemble_chunks`, over the payload so far.
unfoldable pub append_chunks : ℕ → List ℕ → List (Option (List ℕ)) → Result Error (List ℕ)
append_chunks payload_size payload [] = ok payload
append_chunks payload_size payload (none ∷ rest) = err missing
append_chunks payload_size payload (some chunk ∷ rest) = do
  ensure (not (ltb payload_size (length payload + length chunk))) too_large
  append_chunks payload_size (payload ++ chunk) rest

unfoldable pub assemble_chunks : List (Option (List ℕ)) → ℕ → Result Error (List ℕ)
assemble_chunks pieces payload_size = do
  payload ← append_chunks payload_size [] pieces
  ensure (length payload == payload_size) size_mismatch
  ok payload

abbrev pub chunk_count : ℕ → ℕ
chunk_count payload_size = div_ceil payload_size nostr_file_chunk_size

-- `payload.chunks(NOSTR_FILE_CHUNK_SIZE)` of `send_over_relays`.
abbrev pub split_payload : List ℕ → List (List ℕ)
split_payload payload = chunks nostr_file_chunk_size payload
