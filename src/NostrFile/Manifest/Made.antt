-- ===== src/NostrFile/Manifest/Made.antt =====
-- The manifest that a sender makes is one that a receiver takes.
use ptransfer_cli.Common.{
  ℕ, is_empty, ◌∙◌, sym, inl, inr, Bool, Bool-cases, leb, err, ensure, ◌+◌, ◌^◌, ◌≤◌, ◌<◌, ◌≡◌,
  refl, List, Option, true, false, length, ok, arith, [], ◌∷◌, ap, not, ◌&&◌, ◌==◌,
}
use ptransfer_cli.NostrFile.{relay_max_bytes}
use ptransfer_cli.NostrFile.Codec.{PayloadCompression, plain, deflate, compress_payload}
use ptransfer_cli.NostrFile.Codec.Assembly.{length-split_payload}
use ptransfer_cli.NostrFile.Manifest.{
  NostrFileManifest, validate, check_window, bound, is_base64_sha256, is_identity, manifest_of,
  prepare, is_plain, bad_payload_size,
}

module _ (encoder : List ℕ → Option (List ℕ)) (file_hash : List ℕ → List ℕ) (pubkey : List ℕ)
    (file_name mime_type : List ℕ) where
  -- Of a payload, that it is one of the given contents.
  abbrev pub Fits : List ℕ → PayloadCompression → List ℕ → Type 0
  Fits contents plain payload = payload ≡ contents
  Fits contents deflate payload =
      (1 ≤ length payload) × (length payload ≤ bound deflate (length contents))

  payload_test :
      (contents payload : List ℕ) (c : PayloadCompression)
      → 1 ≤ length contents
      → Fits contents c payload
      → (1 ≤ length payload)
        × (length payload ≤ bound c (length contents))
        × ((is_plain c && not (length payload == length contents)) ≡ false)
  payload_test contents payload plain h f = let same = ap length f in ground arith
  payload_test contents payload deflate h (f, g) = (f, g, refl)

  pub validate-manifest_of :
      (contents payload : List ℕ) (c : PayloadCompression) (now : ℕ)
      → is_empty file_name ≡ false
      → is_base64_sha256 (file_hash contents) ≡ true
      → is_identity pubkey ≡ true
      → 1 ≤ length contents
      → length contents ≤ relay_max_bytes
      → now + 3600 < 2 ^ 64
      → Fits contents c payload
      → validate (manifest_of encoder file_hash pubkey file_name mime_type contents c payload now)
        ≡ ok tt
  unfolding validate
  validate-manifest_of contents payload c now hn hh hp low high hw f =
      ground
        (arith, hn, hh, hp, payload_test contents payload c low f, length-split_payload payload)

  -- The test of the payload's size: a plain payload passes it, a compressed one within the bound.
  abbrev pub is_sized : PayloadCompression → ℕ → ℕ → Bool
  is_sized plain size payload_size = true
  is_sized deflate size payload_size = leb 1 payload_size && leb payload_size (bound deflate size)

  sized_deflate :
      (contents payload : List ℕ)
      → is_sized deflate (length contents) (length payload) ≡ true
      → Fits contents deflate payload
  sized_deflate contents payload h = (ground (arith, h), ground (arith, h))

  refused_size :
      (contents payload : List ℕ) (now : ℕ)
      → is_empty file_name ≡ false
      → 1 ≤ length contents
      → length contents ≤ relay_max_bytes
      → is_sized deflate (length contents) (length payload) ≡ false
      → validate
          (manifest_of encoder file_hash pubkey file_name mime_type contents deflate payload now)
        ≡ err bad_payload_size
  unfolding validate
  refused_size contents payload now hn low high h = ground (arith, hn, h)

  compress_payload-plain :
      (contents payload : List ℕ)
      → compress_payload encoder contents plain ≡ ok payload
      → payload ≡ contents
  unfolding compress_payload
  compress_payload-plain contents payload h = ground arith

  validate-prepared :
      (contents payload : List ℕ) (c : PayloadCompression) (now : ℕ)
      → is_empty file_name ≡ false
      → is_base64_sha256 (file_hash contents) ≡ true
      → is_identity pubkey ≡ true
      → 1 ≤ length contents
      → length contents ≤ relay_max_bytes
      → now + 3600 < 2 ^ 64
      → compress_payload encoder contents c ≡ ok payload
      → validate (manifest_of encoder file_hash pubkey file_name mime_type contents c payload now)
        ≡ ensure (is_sized c (length contents) (length payload)) bad_payload_size
  validate-prepared contents payload plain now hn hh hp low high hw packed =
      validate-manifest_of contents payload plain now hn hh hp low high hw
        (compress_payload-plain contents payload packed)
  validate-prepared contents payload deflate now hn hh hp low high hw packed =
      elim (Bool-cases (is_sized deflate (length contents) (length payload))) [
        | inl e ↦
            validate-manifest_of contents payload deflate now hn hh hp low high hw
              (sized_deflate contents payload e)
            ∙ ap (λ b. ensure b bad_payload_size) (sym e)
        | inr e ↦
            refused_size contents payload now hn low high e
            ∙ ap (λ b. ensure b bad_payload_size) (sym e)
      ]

  prepare-facts :
      (contents payload : List ℕ) (c : PayloadCompression) (now : ℕ) (m : NostrFileManifest)
      → prepare encoder file_hash pubkey file_name mime_type contents c now ≡ ok (m, payload)
      → (1 ≤ length contents)
        × (length contents ≤ relay_max_bytes)
        × (compress_payload encoder contents c ≡ ok payload)
        × (m ≡ manifest_of encoder file_hash pubkey file_name mime_type contents c payload now)
  unfolding prepare
  prepare-facts [] payload c now m h = cc
  prepare-facts (x ∷ xs) payload c now m h = ground arith

  check_window-manifest_of :
      (contents payload : List ℕ) (c : PayloadCompression) (now later : ℕ)
      → now + 3600 < 2 ^ 64
      → now ≤ later + 600
      → later ≤ now + 3600 + 600
      → later < 2 ^ 64
      → check_window
          (manifest_of encoder file_hash pubkey file_name mime_type contents c payload now)
          later
        ≡ ok tt
  unfolding check_window
  check_window-manifest_of contents payload c now later hw early late fits = ground arith

  -- The manifest of a send that is prepared passes the receiver's validation where the payload is the
  -- file itself; where it is compressed, exactly where it is not empty and within the bound that the
  -- receiver puts on it, and is else refused for its size. It is inside its window on a clock from ten
  -- minutes before it was made to ten minutes after the hour it names. The file has a name, the hash and
  -- the identity are in their formats, and the clock is an hour from the end of 64 bits or more.
  pub prepare_valid :
      (contents payload : List ℕ) (c : PayloadCompression) (now later : ℕ) (m : NostrFileManifest)
      → is_empty file_name ≡ false
      → is_base64_sha256 (file_hash contents) ≡ true
      → is_identity pubkey ≡ true
      → now + 3600 < 2 ^ 64
      → now ≤ later + 600
      → later ≤ now + 3600 + 600
      → later < 2 ^ 64
      → prepare encoder file_hash pubkey file_name mime_type contents c now ≡ ok (m, payload)
      → (validate m ≡ ensure (is_sized c (length contents) (length payload)) bad_payload_size)
        × (check_window m later ≡ ok tt)
  prepare_valid contents payload c now later m hn hh hp hw early late fits h =
      let (low, high, packed, made) = prepare-facts contents payload c now m h in
      rw made (
        validate-prepared contents payload c now hn hh hp low high hw packed,
        check_window-manifest_of contents payload c now later hw early late fits,
      )
