-- ===== src/NostrFile/Manifest.antt =====
-- src/code/nostr_file/manifest.rs, and the manifest that `send_over_relays` of upload.rs makes.
pub mod Valid
pub mod Made
mod Runs
use ptransfer_cli.Common.{
  ℕ, ◌+◌, ◌-◌, ◌*◌, ◌%◌, ◌^◌, min, List, [], ◌∷◌, Option, none, some, Bool, true, false, not, ◌&&◌,
  ◌||◌, ltb, leb, ◌==◌, if◌then◌else◌, length, is_empty, take, all, Result, ok, err, ◌>>=◌, ◌>>◌,
  ensure, with_err,
}
use ptransfer_cli.Common.Decimal.{is_digit}
use ptransfer_cli.NostrFile.{
  nostr_file_chunk_size, nostr_file_expiration_sec, manifest_version, relay_max_bytes,
  clock_skew_tolerance_sec, div_ceil,
}
use ptransfer_cli.NostrFile.Codec.{
  PayloadCompression, deflate, plain, compress_payload, split_payload,
}

pub data Error : Type 0 where
  wrong_version wrong_codec no_name bad_file_size bad_payload_size bad_chunk_size bad_piece_count
        bad_hash bad_pubkey bad_window expired in_future :
      Error
  -- Those of `send_over_relays`.
  nothing_to_send too_large compression_failed : Error

abbrev pub codec_version : ℕ
codec_version = 2

abbrev pub min_chunk_size : ℕ
min_chunk_size = 1024

abbrev pub max_chunk_size : ℕ
max_chunk_size = 65_408

pub record NostrFileManifest : Type 0 where
  pub v : ℕ
  pub file_name : List ℕ
  pub file_size : ℕ
  pub mime_type : List ℕ
  pub file_hash : List ℕ
  pub pubkey : List ℕ
  pub compression : PayloadCompression
  pub payload_size : ℕ
  pub chunk_size : ℕ
  pub total_chunks : ℕ
  pub enc : ℕ
  pub created_at : ℕ
  pub expires_at : ℕ

abbrev pub in_range : ℕ → ℕ → ℕ → Bool
in_range low high c = leb low c && leb c high

-- `is_ascii_alphanumeric() || '+' || '/'`
abbrev pub is_base64 : ℕ → Bool
is_base64 c = is_digit c || in_range b'a' b'z' c || in_range b'A' b'Z' c || c == b'+' || c == b'/'

abbrev pub is_ascii_hexdigit : ℕ → Bool
is_ascii_hexdigit c = is_digit c || in_range b'a' b'f' c || in_range b'A' b'F' c

abbrev pub ends_with : ℕ → List ℕ → Bool
ends_with c [] = false
ends_with c (x ∷ []) = x == c
ends_with c (x ∷ y ∷ ys) = ends_with c (y ∷ ys)

unfoldable pub is_base64_sha256 : List ℕ → Bool
is_base64_sha256 text = length text == 44 && ends_with b'=' text && all is_base64 (take 43 text)

unfoldable pub is_identity : List ℕ → Bool
is_identity pubkey = length pubkey == 64 && all is_ascii_hexdigit pubkey

-- The most that a payload takes for a file of this size.
abbrev pub bound : PayloadCompression → ℕ → ℕ
bound plain file_size = file_size
bound deflate file_size = file_size + div_ceil file_size 65_535 * 5 + 64

abbrev pub is_plain : PayloadCompression → Bool
is_plain plain = true
is_plain deflate = false

-- `a.checked_add(b) != Some(c)`, on `u64`
abbrev pub checked_add : ℕ → ℕ → Option ℕ
checked_add a b = if ltb (a + b) (2 ^ 64) then some (a + b) else none

abbrev pub is_some_of : Option ℕ → ℕ → Bool
is_some_of none c = false
is_some_of (some sum) c = sum == c

abbrev pub saturating_add : ℕ → ℕ → ℕ
saturating_add a b = min (a + b) (2 ^ 64 - 1)

unfoldable pub validate : NostrFileManifest → Result Error (Unit {0})
validate m = do
  ensure (m.v == manifest_version) wrong_version
  ensure (m.enc == codec_version) wrong_codec
  ensure (not (is_empty m.file_name)) no_name
  ensure (not (m.file_size == 0 || ltb relay_max_bytes m.file_size)) bad_file_size
  ensure
      (not (
        m.payload_size == 0
        || ltb (bound m.compression m.file_size) m.payload_size
        || (is_plain m.compression && not (m.payload_size == m.file_size))))
      bad_payload_size
  ensure (in_range min_chunk_size max_chunk_size m.chunk_size) bad_chunk_size
  ensure (m.total_chunks == div_ceil m.payload_size m.chunk_size) bad_piece_count
  ensure (is_base64_sha256 m.file_hash) bad_hash
  ensure (is_identity m.pubkey) bad_pubkey
  ensure (is_some_of (checked_add m.created_at nostr_file_expiration_sec) m.expires_at) bad_window

unfoldable pub check_window : NostrFileManifest → ℕ → Result Error (Unit {0})
check_window m now = do
  ensure (not (ltb (saturating_add m.expires_at clock_skew_tolerance_sec) now)) expired
  ensure (not (ltb (saturating_add now clock_skew_tolerance_sec) m.created_at)) in_future

-- The manifest of `send_over_relays`, and the payload. `encoder` is flate2's, `file_hash` the
-- base64 text of SHA-256, and `pubkey` the fresh identity.
module _ (encoder : List ℕ → Option (List ℕ)) (file_hash : List ℕ → List ℕ) (pubkey : List ℕ)
    (file_name mime_type : List ℕ) where
  abbrev pub manifest_of : List ℕ → PayloadCompression → List ℕ → ℕ → NostrFileManifest
  manifest_of contents compression payload now = record {
    v = manifest_version;
    file_name = file_name;
    file_size = length contents;
    mime_type = mime_type;
    file_hash = file_hash contents;
    pubkey = pubkey;
    compression = compression;
    payload_size = length payload;
    chunk_size = nostr_file_chunk_size;
    total_chunks = length (split_payload payload);
    enc = 2;
    created_at = now;
    expires_at = (now + nostr_file_expiration_sec) % 2 ^ 64;
  }

  unfoldable pub prepare :
      List ℕ → PayloadCompression → ℕ → Result Error (NostrFileManifest × List ℕ)
  prepare contents compression now = do
    ensure (not (is_empty contents)) nothing_to_send
    ensure (not (ltb relay_max_bytes (length contents))) too_large
    payload ← with_err (compress_payload encoder contents compression) compression_failed
    ok (manifest_of contents compression payload now, payload)
