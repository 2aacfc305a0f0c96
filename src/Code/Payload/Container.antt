-- ===== src/Code/Payload/Container.antt =====
-- The PT01 container of payload.rs: the hourly keystream, `encode` and `decode`. serde_json, the
-- DEFLATE encoder and decoder, `url` and `base64` are parameters.
use Prim.Native.Nat.{bit_xor}
use ptransfer_cli.Common.{
  ℕ, ◌+◌, ◌*◌, ◌/◌, ◌%◌, ◌^◌, List, [], ◌∷◌, ◌++◌, Option, Bool, not, ◌&&◌, leb, if◌then◌else◌,
  length, take, drop, filter, Result, ok, err, ◌>>=◌, ◌>>◌, ensure, or_err, with_err,
}
use ptransfer_cli.Common.Bytes.{codes, bytes_eq}
use ptransfer_cli.Common.Int.{ℤ, pos, minus, low32}
use ptransfer_cli.Code.Payload.{
  PayloadKind, SignalingPayload, Error, not_serialized, not_a_code, stale_code, not_inflated,
  unreadable_payload, not_base64, validate,
}
use ptransfer_cli.NostrFile.RelayUrl.{Url}
use ptransfer_cli.Util.{is_whitespace}
use ptransfer_cli.Wire.Flate.{Decoder}
use ptransfer_cli.Wire

abbrev pub magic_header : List ℕ
magic_header = codes "PT01"

abbrev pub inner_magic : List ℕ
inner_magic = codes "mag!"

abbrev pub bucket_sec : ℕ
bucket_sec = 3600

abbrev pub base_seed : ℕ
base_seed = 0x9e37_79b9

abbrev pub max_payload_bytes : ℕ
max_payload_bytes = 512 * 1024

-- `wrapping_mul` of `u32`
abbrev pub wrapping_mul : ℕ → ℕ → ℕ
wrapping_mul a b = a * b % 2 ^ 32

-- `h ^ (h >> shift)`
abbrev pub fold_right : ℕ → ℕ → ℕ
fold_right shift h = bit_xor h (h / 2 ^ shift)

-- `state ^ (state << shift)`, in 32 bits
abbrev pub fold_left : ℕ → ℕ → ℕ
fold_left shift state = bit_xor state (state * 2 ^ shift % 2 ^ 32)

unfoldable pub seed_for_bucket : ℤ → ℕ
seed_for_bucket bucket_epoch =
    let h = bit_xor base_seed (low32 bucket_epoch) in
    let mixed = wrapping_mul (fold_right 16 h) 0x85eb_ca6b in
    fold_right 16 (wrapping_mul (fold_right 13 mixed) 0xc2b2_ae35)

unfoldable pub xorshift32 : ℕ → ℕ
xorshift32 state = fold_left 5 (fold_right 17 (fold_left 13 state))

unfoldable pub xor_obfuscate : List ℕ → ℕ → List ℕ
xor_obfuscate [] seed = []
xor_obfuscate (byte ∷ bytes) seed =
    let state = xorshift32 seed in bit_xor byte (state % 256) ∷ xor_obfuscate bytes state

unfoldable pub is_code_payload : List ℕ → Bool
is_code_payload binary = leb 8 (length binary) && bytes_eq (take 4 binary) magic_header

-- The hourly bucket of a clock in milliseconds, and the one before it.
abbrev pub bucket_of : ℕ → ℕ
bucket_of now = now / 1000 / bucket_sec

abbrev pub hours : ℕ → List ℤ
hours now = pos (bucket_of now) ∷ minus (bucket_of now) 1 ∷ []

-- Whether the first four bytes are the marker under a seed.
abbrev pub has_marker : List ℕ → ℕ → Bool
has_marker obfuscated seed = bytes_eq (xor_obfuscate (take 4 obfuscated) seed) inner_magic

module _ (d : Decoder) where
  unfoldable pub inflate_raw : List ℕ → Result Error (List ℕ)
  inflate_raw bytes = do
    pushed ← with_err (Wire.push d (Wire.new d max_payload_bytes) bytes) not_inflated
    finished ← with_err (Wire.finish d pushed) not_inflated
    ok (pushed.out ++ finished.out)

module _ (to_json : SignalingPayload → Option (List ℕ))
    (deflate_raw : List ℕ → Option (List ℕ)) where
  unfoldable pub encode : ℕ → SignalingPayload → Result Error (List ℕ)
  encode now payload = do
    json ← or_err (to_json payload) not_serialized
    compressed ← or_err (deflate_raw json) not_serialized
    ok (
        magic_header
        ++ xor_obfuscate (inner_magic ++ compressed) (seed_for_bucket (pos (bucket_of now))))

module _ (d : Decoder) (from_json : List ℕ → Option SignalingPayload) (parse : List ℕ → Option Url)
    (decode_base64 : List ℕ → Option (List ℕ)) where
  -- What follows the marker, once a seed has opened it.
  unfoldable pub read_inner : List ℕ → Result Error SignalingPayload
  read_inner compressed = do
    json ← inflate_raw d compressed
    payload ← or_err (from_json json) unreadable_payload
    validate parse decode_base64 payload
    ok payload

  unfoldable pub decode_window : List ℕ → List ℤ → Result Error SignalingPayload
  decode_window obfuscated [] = err stale_code
  decode_window obfuscated (bucket ∷ buckets) =
      let seed = seed_for_bucket bucket in
      let rest = decode_window obfuscated buckets in
      if not (has_marker obfuscated seed)
      then rest
      else read_inner (drop 4 (xor_obfuscate obfuscated seed))

  unfoldable pub decode : ℕ → List ℕ → Result Error SignalingPayload
  decode now binary = do
    ensure (is_code_payload binary) not_a_code
    decode_window (drop 4 binary) (hours now)

module _ (decode_base64 : List ℕ → Option (List ℕ)) where
  unfoldable pub from_clipboard : List ℕ → Result Error (List ℕ)
  from_clipboard text = or_err (decode_base64 (filter (λ c. not (is_whitespace c)) text)) not_base64

-- `format!("{byte:02x}")`
abbrev pub hex_digit : ℕ → ℕ
hex_digit n = if leb 10 n then 87 + n else 48 + n

unfoldable pub hex_lower : List ℕ → List ℕ
hex_lower [] = []
hex_lower (byte ∷ bytes) = hex_digit (byte / 16) ∷ hex_digit (byte % 16) ∷ hex_lower bytes

abbrev pub answer_transcript_label : List ℕ
answer_transcript_label = codes "ptransfer:code-exchange-answer-transcript:v1"

-- `sha256` is the `sha2` crate's, `to_array` serde_json's writing of a JSON array of these six values.
module _ (sha256 : List ℕ → List ℕ) where
  unfoldable pub offer_transcript_hash : List ℕ → List ℕ
  offer_transcript_hash offer_binary = hex_lower (sha256 offer_binary)

  unfoldable pub answer_transcript_hash :
      (List ℕ → PayloadKind → List ℕ → List (List ℕ) → ℤ → List ℕ → Option (List ℕ))
      → SignalingPayload
      → Result Error (List ℕ)
  answer_transcript_hash to_array p = do
    canonical ←
        or_err
          (to_array answer_transcript_label p.kind p.sdp p.candidates p.created_at
            (hex_lower p.public_key))
          not_serialized
    ok (hex_lower (sha256 canonical))
