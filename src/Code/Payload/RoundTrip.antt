-- ===== src/Code/Payload/RoundTrip.antt =====
-- What `encode` of payload.rs writes, `decode` reads, in the sender's hour and in the next.
use ptransfer_cli.Common.{
  ℕ, suc, ◌+◌, ◌≤◌, ◌≡◌, refl, ap, sym, ◌∙◌, List, [], ◌∷◌, ◌++◌, true, false, Option, some, inl,
  inr, ◌⊎◌, length, drop, All, All-append, ok, arith, append-nil, leb,
}
use ptransfer_cli.Common.Bytes.{IsByte, bytes_eq, bytes_eq_refl}
use ptransfer_cli.Common.Int.{ℤ, pos, minus}
use ptransfer_cli.Code.Payload.{SignalingPayload, validate}
use ptransfer_cli.Code.Payload.Container.{
  magic_header, inner_magic, max_payload_bytes, seed_for_bucket, xor_obfuscate, is_code_payload,
  bucket_of, hours, has_marker, inflate_raw, encode, read_inner, decode_window, decode,
}
use ptransfer_cli.Code.Payload.Obfuscated.{
  xor_obfuscate_involutive, xor_obfuscate-take, length-xor_obfuscate,
}
use ptransfer_cli.NostrFile.RelayUrl.{Url}
use ptransfer_cli.Wire.{inflate_buf_step}
use ptransfer_cli.Wire.Flate.{Decoder}
use ptransfer_cli.Wire.Whole.{push_whole, finish_whole}

magic-IsByte : All IsByte inner_magic
magic-IsByte = omega arith

module _ (d : Decoder) (from_json : List ℕ → Option SignalingPayload) (parse : List ℕ → Option Url)
    (decode_base64 : List ℕ → Option (List ℕ)) where
  open d use {State, start, total_in, decompress_vec}

  inflate_raw_whole :
      (ended : State) (packed plain : List ℕ)
      → decompress_vec start packed inflate_buf_step false
        ≡ some record { decoder = ended; produced = plain; ended = true }
      → total_in start + length packed ≤ total_in ended
      → length plain ≤ max_payload_bytes
      → decompress_vec ended [] inflate_buf_step true
        ≡ some record { decoder = ended; produced = []; ended = true }
      → inflate_raw d packed ≡ ok plain
  unfolding inflate_raw
  inflate_raw_whole ended packed plain called read_all small again =
      let pushed = push_whole d ended packed plain max_payload_bytes called read_all small again in
      let finished =
        finish_whole d ended packed plain max_payload_bytes called read_all small again in
      rw (pushed, finished) (ap ok (append-nil plain))

  read_inner_ok :
      (packed json : List ℕ) (payload : SignalingPayload)
      → inflate_raw d packed ≡ ok json
      → from_json json ≡ some payload
      → validate parse decode_base64 payload ≡ ok tt
      → read_inner d from_json parse decode_base64 packed ≡ ok payload
  unfolding read_inner
  read_inner_ok packed json payload i j v = rw (i, j, v) refl

  -- Under a seed, what another seed hid shows the marker where the two keystreams begin alike.
  marker_of :
      (packed : List ℕ) (hid shown : ℕ)
      → has_marker (xor_obfuscate (inner_magic ++ packed) hid) shown
        ≡ bytes_eq (xor_obfuscate (xor_obfuscate inner_magic hid) shown) inner_magic
  marker_of packed hid shown =
      ap (λ h. bytes_eq (xor_obfuscate h shown) inner_magic)
        (sym (xor_obfuscate-take 4 (inner_magic ++ packed) hid))

  marker_shown :
      (packed : List ℕ) (seed : ℕ)
      → has_marker (xor_obfuscate (inner_magic ++ packed) seed) seed ≡ true
  marker_shown packed seed =
      marker_of packed seed seed
      ∙ ap (λ h. bytes_eq h inner_magic) (xor_obfuscate_involutive inner_magic seed magic-IsByte)
      ∙ bytes_eq_refl inner_magic

  rest_shown :
      (packed : List ℕ) (seed : ℕ)
      → All IsByte packed
      → drop 4 (xor_obfuscate (xor_obfuscate (inner_magic ++ packed) seed) seed) ≡ packed
  rest_shown packed seed h = ap (drop 4) (
      xor_obfuscate_involutive (inner_magic ++ packed) seed
        (All-append IsByte inner_magic packed magic-IsByte h))

  -- What `decode_window` makes of a container whose seed is that of its first bucket, or of its second.
  decode_window_here :
      (packed : List ℕ) (bucket : ℤ) (buckets : List ℤ) (payload : SignalingPayload)
      → All IsByte packed
      → read_inner d from_json parse decode_base64 packed ≡ ok payload
      → decode_window d from_json parse decode_base64
          (xor_obfuscate (inner_magic ++ packed) (seed_for_bucket bucket))
          (bucket ∷ buckets)
        ≡ ok payload
  unfolding decode_window
  decode_window_here packed bucket buckets payload bytes read =
      rw
        (
          marker_shown packed (seed_for_bucket bucket),
          rest_shown packed (seed_for_bucket bucket) bytes,
        )
        read

  decode_window_later :
      (packed : List ℕ) (wrong bucket : ℤ) (payload : SignalingPayload)
      → bytes_eq
          (xor_obfuscate
            (xor_obfuscate inner_magic (seed_for_bucket bucket))
            (seed_for_bucket wrong))
          inner_magic
        ≡ false
      → decode_window d from_json parse decode_base64
          (xor_obfuscate (inner_magic ++ packed) (seed_for_bucket bucket))
          (bucket ∷ [])
        ≡ ok payload
      → decode_window d from_json parse decode_base64
          (xor_obfuscate (inner_magic ++ packed) (seed_for_bucket bucket))
          (wrong ∷ bucket ∷ [])
        ≡ ok payload
  unfolding decode_window
  decode_window_later packed wrong bucket payload apart here =
      rw (marker_of packed (seed_for_bucket bucket) (seed_for_bucket wrong), apart) here

  decode_contained :
      (now : ℕ) (hidden : List ℕ) (payload : SignalingPayload)
      → 4 ≤ length hidden
      → decode_window d from_json parse decode_base64 hidden (hours now) ≡ ok payload
      → decode d from_json parse decode_base64 now (magic_header ++ hidden) ≡ ok payload
  unfolding decode is_code_payload
  decode_contained now hidden payload long h =
      let sized : leb 8 (length (magic_header ++ hidden)) ≡ true = ground arith in rw sized h

  before_next : (b : ℕ) → minus (suc b) 1 ≡ pos b
  before_next b = ground arith

  shown_in_window :
      (made now : ℕ) (packed : List ℕ) (payload : SignalingPayload)
      → All IsByte packed
      → read_inner d from_json parse decode_base64 packed ≡ ok payload
      → (bucket_of now ≡ bucket_of made)
        ⊎ ((bucket_of now ≡ suc (bucket_of made))
            × (bytes_eq
                  (xor_obfuscate
                    (xor_obfuscate inner_magic (seed_for_bucket (pos (bucket_of made))))
                    (seed_for_bucket (pos (bucket_of now))))
                  inner_magic
                ≡ false))
      → decode_window d from_json parse decode_base64
          (xor_obfuscate (inner_magic ++ packed) (seed_for_bucket (pos (bucket_of made))))
          (hours now)
        ≡ ok payload
  shown_in_window made now packed payload bytes read (inl same) =
      rw same (decode_window_here packed (pos (bucket_of made)) _ payload bytes read)
  shown_in_window made now packed payload bytes read (inr (next, apart)) =
      let previous = ap (λ b. minus b 1) next ∙ before_next (bucket_of made) in
      rw previous (
        decode_window_later packed (pos (bucket_of now)) (pos (bucket_of made)) payload apart
          (decode_window_here packed (pos (bucket_of made)) [] payload bytes read))

  -- A valid payload that serde_json reads back, packed into bytes that one call of the decoder reads to
  -- their end within the cap and 128 KiB, is encoded, and decoding the code in the sender's hour, or in
  -- the next where the two hours' keystreams do not both hide the marker alike, returns the payload.
  pub decode-encode_in_window :
      (to_json : SignalingPayload → Option (List ℕ)) (deflate_raw : List ℕ → Option (List ℕ))
      (payload : SignalingPayload) (made now : ℕ) (json packed : List ℕ) (ended : State)
      → validate parse decode_base64 payload ≡ ok tt
      → to_json payload ≡ some json
      → from_json json ≡ some payload
      → deflate_raw json ≡ some packed
      → All IsByte packed
      → decompress_vec start packed inflate_buf_step false
        ≡ some record { decoder = ended; produced = json; ended = true }
      → total_in start + length packed ≤ total_in ended
      → length json ≤ max_payload_bytes
      → decompress_vec ended [] inflate_buf_step true
        ≡ some record { decoder = ended; produced = []; ended = true }
      → (bucket_of now ≡ bucket_of made)
        ⊎ ((bucket_of now ≡ suc (bucket_of made))
            × (bytes_eq
                  (xor_obfuscate
                    (xor_obfuscate inner_magic (seed_for_bucket (pos (bucket_of made))))
                    (seed_for_bucket (pos (bucket_of now))))
                  inner_magic
                ≡ false))
      → (code : List ℕ) × (encode to_json deflate_raw made payload ≡ ok code)
        × (decode d from_json parse decode_base64 now code ≡ ok payload)
  unfolding encode
  decode-encode_in_window to_json deflate_raw payload made now json packed ended valid written
        parsed deflated bytes called read_all small again hour =
      let hidden = xor_obfuscate (inner_magic ++ packed) (seed_for_bucket (pos (bucket_of made))) in
      let inflated = inflate_raw_whole ended packed json called read_all small again in
      let read = read_inner_ok packed json payload inflated parsed valid in
      let long : 4 ≤ length hidden = omega (
        arith,
        length-xor_obfuscate (inner_magic ++ packed) (seed_for_bucket (pos (bucket_of made))),
      ) in
      (
        magic_header ++ hidden,
        rw (written, deflated) refl,
        decode_contained now hidden payload long
            (shown_in_window made now packed payload bytes read hour),
      )
