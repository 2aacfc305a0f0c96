-- ===== src/Tor/Handshake/Agreed.antt =====
-- Two honest sides of the handshake with one password and one address.
use ptransfer_cli.Common.{
  ℕ, ◌≡◌, refl, sym, ap, ◌∙◌, List, [], ◌++◌, Option, some, true, false, ltb, length, ok, with_err,
  with_err-ok, >>=-ok, arith,
}
use ptransfer_cli.Crypto.Aead.{drawn}
use ptransfer_cli.Crypto.Aes.{encrypt, decrypt, encrypt_with_aad}
use ptransfer_cli.Crypto.Aes.RoundTrip.{decrypt-encrypt_with_aad}
use ptransfer_cli.Crypto.Kdf.{
  TorSessionKeys, tor_session_keys, label_tor_claim, label_tor_confirm, label_tor_content,
}
use ptransfer_cli.Crypto.Spake2.{
  PakeRun, sender, receiver, tor, derive_pake_secret, start, is_valid_pake_message,
}
use ptransfer_cli.Crypto.Spake2.Agreement.{finish-start, start-is_valid_pake_message}
use ptransfer_cli.Tor.Handshake.{
  pake_failed, Library, decode_pake_message, seal, open_sealed, start_service, start_client,
  agreed_keys,
}

module _ (lib : Library) where
  open lib use {
    curve, order, sha256, expand, aead, to_base64, from_base64, claim_json, read_claim,
    confirm_json, read_confirm,
  }

  -- HKDF gives 32 bytes for every label, so there are keys for a salt of 16 bytes.
  tor_session_keys-ok :
      (root salt : List ℕ)
      → ((s r i : List ℕ) → (k : List ℕ) × (expand s r i 32 ≡ some k))
      → length salt ≡ 16
      → (keys : TorSessionKeys) × (tor_session_keys expand root salt ≡ ok keys)
  unfolding tor_session_keys
  tor_session_keys-ok root salt expands sized =
      let (c, is_c) = expands salt root label_tor_claim in
      let (d, is_d) = expands salt root label_tor_confirm in
      let (e, is_e) = expands salt root label_tor_content in
      let long : ltb (length salt) 16 ≡ false = ground (arith, sized) in
      (record { claim = c; confirm = d; content = e }, rw (long, is_c, is_d, is_e) refl)

  -- What one side seals under a key, the other opens.
  pub seal-ok :
      (key text nonce : List ℕ) (json : Option (List ℕ))
      → json ≡ some text
      → seal lib key json (drawn nonce) ≡ ok (to_base64 (nonce ++ aead.seal key nonce [] text))
  unfolding encrypt encrypt_with_aad
  seal-ok key text nonce json written = rw written refl

  pub open_sealed-seal :
      {A : Type 0} (key text nonce : List ℕ) (read : List ℕ → Option A) (body : A)
      → ((xs : List ℕ) → from_base64 (to_base64 xs) ≡ some xs)
      → length nonce ≡ 12
      → read text ≡ some body
      → open_sealed lib key read (to_base64 (nonce ++ aead.seal key nonce [] text)) ≡ ok body
  unfolding decrypt
  open_sealed-seal key text nonce read body base64 sized is_body =
      rw
        (
          base64 (nonce ++ aead.seal key nonce [] text),
          decrypt-encrypt_with_aad aead key text [] nonce sized,
          is_body,
        )
        refl

  pub decode_pake_message-ok :
      (message : List ℕ)
      → ((xs : List ℕ) → from_base64 (to_base64 xs) ≡ some xs)
      → is_valid_pake_message curve message ≡ true
      → decode_pake_message lib (to_base64 message) ≡ ok message
  decode_pake_message-ok message base64 valid = rw (base64 message, valid) refl

  -- The keys that the runs of one password give the two sides over each other's elements.
  pub agreed_keys-ok :
      (password onion salt : List ℕ) (draws draws' : List (Option (List ℕ))) (a b : PakeRun curve)
      → start_service lib password draws ≡ ok a
      → start_client lib password draws' ≡ ok b
      → ((s r i : List ℕ) → (k : List ℕ) × (expand s r i 32 ≡ some k))
      → length salt ≡ 16
      → (keys : TorSessionKeys) × (agreed_keys lib a b.message onion salt ≡ ok keys)
        × (agreed_keys lib b a.message onion salt ≡ ok keys)
        × (is_valid_pake_message curve a.message ≡ true)
        × (is_valid_pake_message curve b.message ≡ true)
  agreed_keys-ok password onion salt draws draws' a b ha hb expands sized =
      let (secret, derived, begun) =
        >>=-ok (with_err (derive_pake_secret order expand password) pake_failed) _ ha in
      let (secret', derived', begun') =
        >>=-ok (with_err (derive_pake_secret order expand password) pake_failed) _ hb in
      let same : secret' ≡ secret = cc in
      let started = with_err-ok (start curve sender secret draws) pake_failed begun in
      let started' =
        ap (λ s. start curve receiver s draws') (sym same)
        ∙ with_err-ok (start curve receiver secret' draws') pake_failed begun' in
      let (root, by_a, by_b) =
        finish-start curve sha256 secret draws draws' a b (tor onion) started started' in
      let (keys, made) = tor_session_keys-ok root salt expands sized in
      (
        keys,
        rw (by_a, made) refl,
        rw (by_b, made) refl,
        start-is_valid_pake_message curve sender secret draws a started,
        start-is_valid_pake_message curve receiver secret draws' b started',
      )
