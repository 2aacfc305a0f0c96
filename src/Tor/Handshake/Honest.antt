-- ===== src/Tor/Handshake/Honest.antt =====
-- The handshake of two honest sides.
use ptransfer_cli.Common.{
  ℕ, ◌≡◌, refl, ap, ◌∙◌, List, [], ◌∷◌, ◌++◌, Option, some, true, ◌==◌, length, ok, ==_iff,
}
use ptransfer_cli.Common.Bytes.{codes, bytes_eq, bytes_eq_refl}
use ptransfer_cli.Crypto.Aead.{drawn}
use ptransfer_cli.Crypto.Kdf.{TorSessionKeys}
use ptransfer_cli.Crypto.Spake2.{PakeRun, is_valid_pake_message}
use ptransfer_cli.Tor.Handshake.{
  Frame, hello, offer, claim, confirm, ready, ClaimBody, ConfirmBody, authenticated, Library,
  start_service, start_client, agreed_keys, make_offer, make_confirm, run_service_handshake,
  make_hello, make_claim, end_client, run_client_handshake, claim_type, confirm_type,
}
use ptransfer_cli.Tor.Handshake.Agreed.{
  agreed_keys-ok, seal-ok, open_sealed-seal, decode_pake_message-ok,
}
use ptransfer_cli.Wire.{TransferMetadata}

module _ (lib : Library) (onion : List ℕ) (metadata : TransferMetadata) where
  open lib use {
    curve, expand, aead, to_base64, from_base64, claim_json, read_claim, confirm_json, read_confirm,
  }

  abbrev pub claim_body : ClaimBody
  claim_body = record { body_type = claim_type; version = 1; onion = onion }

  abbrev pub confirm_body : ConfirmBody
  confirm_body = record {
    body_type = confirm_type;
    version = 1;
    onion = onion;
    metadata = metadata;
  }

  make_offer-ok :
      (password : List ℕ) (draws : List (Option (List ℕ))) (salt message : List ℕ)
      (a : PakeRun curve)
      → ((xs : List ℕ) → from_base64 (to_base64 xs) ≡ some xs)
      → is_valid_pake_message curve message ≡ true
      → start_service lib password draws ≡ ok a
      → make_offer lib password draws (some salt) (some (hello 1 (to_base64 message)))
        ≡ ok (offer 1 (to_base64 a.message) (to_base64 salt), (a, (message, salt)))
  unfolding make_offer
  make_offer-ok password draws salt message a base64 valid started =
      rw (decode_pake_message-ok lib message base64 valid, started) refl

  make_claim-ok :
      (text nonce salt message : List ℕ) (b : PakeRun curve) (keys : TorSessionKeys)
      → ((xs : List ℕ) → from_base64 (to_base64 xs) ≡ some xs)
      → is_valid_pake_message curve message ≡ true
      → length salt ≡ 16
      → agreed_keys lib b message onion salt ≡ ok keys
      → claim_json claim_body ≡ some text
      → make_claim lib onion (drawn nonce) b (some (offer 1 (to_base64 message) (to_base64 salt)))
        ≡ ok (claim (to_base64 (nonce ++ aead.seal keys.claim nonce [] text)), keys)
  unfolding make_claim
  make_claim-ok text nonce salt message b keys base64 valid sized agreed written =
      let whole : (length salt == 16) ≡ true = (==_iff (length salt) 16).1 sized in
      rw
        (
          decode_pake_message-ok lib message base64 valid,
          base64 salt,
          whole,
          agreed,
          seal-ok lib keys.claim text nonce (claim_json claim_body) written,
        )
        refl

  make_confirm-ok :
      (ctext mtext nonce nonce' salt message : List ℕ) (a : PakeRun curve) (keys : TorSessionKeys)
      → ((xs : List ℕ) → from_base64 (to_base64 xs) ≡ some xs)
      → length nonce ≡ 12
      → agreed_keys lib a message onion salt ≡ ok keys
      → read_claim ctext ≡ some claim_body
      → confirm_json confirm_body ≡ some mtext
      → make_confirm lib onion metadata
          (drawn nonce')
          (a, (message, salt))
          (some (claim (to_base64 (nonce ++ aead.seal keys.claim nonce [] ctext))))
        ≡ ok (confirm (to_base64 (nonce' ++ aead.seal keys.confirm nonce' [] mtext)), keys)
  unfolding make_confirm
  make_confirm-ok ctext mtext nonce nonce' salt message a keys base64 sized agreed parsed written =
      rw
        (
          agreed,
          open_sealed-seal lib keys.claim ctext nonce read_claim claim_body base64 sized parsed,
          bytes_eq_refl onion,
          seal-ok lib keys.confirm mtext nonce' (confirm_json confirm_body) written,
        )
        refl

  end_client-ok :
      (mtext nonce : List ℕ) (keys : TorSessionKeys)
      → ((xs : List ℕ) → from_base64 (to_base64 xs) ≡ some xs)
      → length nonce ≡ 12
      → read_confirm mtext ≡ some confirm_body
      → metadata.content_type ≡ codes "file"
      → end_client lib onion keys
          (some (confirm (to_base64 (nonce ++ aead.seal keys.confirm nonce [] mtext))))
        ≡ ok record { keys = keys; metadata = metadata }
  unfolding end_client
  end_client-ok mtext nonce keys base64 sized parsed content =
      let is_file : bytes_eq metadata.content_type (codes "file") ≡ true =
        ap (λ t. bytes_eq t (codes "file")) content ∙ bytes_eq_refl (codes "file") in
      rw
        (
          open_sealed-seal lib keys.confirm mtext nonce read_confirm confirm_body base64 sized
              parsed,
          bytes_eq_refl onion,
          is_file,
        )
        refl

  -- A service and a client with one password and one address, that hand each other what they send over a
  -- stream on which nothing fails, end with the same keys, the service ready and the client with the
  -- description of the file, whatever scalars, salt and nonces of the right length were drawn.
  pub run_service_handshake-run_client_handshake :
      (password ctext mtext nonce nonce' salt : List ℕ) (draws draws' : List (Option (List ℕ)))
      (a b : PakeRun curve)
      → start_service lib password draws ≡ ok a
      → start_client lib password draws' ≡ ok b
      → length salt ≡ 16
      → length nonce ≡ 12
      → length nonce' ≡ 12
      → metadata.content_type ≡ codes "file"
      → claim_json claim_body ≡ some ctext
      → read_claim ctext ≡ some claim_body
      → confirm_json confirm_body ≡ some mtext
      → read_confirm mtext ≡ some confirm_body
      → ((xs : List ℕ) → from_base64 (to_base64 xs) ≡ some xs)
      → ((s r i : List ℕ) → (k : List ℕ) × (expand s r i 32 ≡ some k))
      → (first : Frame) × (second : Frame) × (third : Frame) × (fourth : Frame)
        × (keys : TorSessionKeys) × (run_client_handshake lib password onion draws'
              (drawn nonce)
              (λ f. true)
              (some second)
              (some fourth)
            ≡ (first ∷ third ∷ [], ok record { keys = keys; metadata = metadata }))
        × (run_service_handshake lib password onion metadata draws
              (some salt)
              (drawn nonce')
              (λ f. true)
              (some first)
              (some third)
              (some ready)
            ≡ (second ∷ fourth ∷ [], ok (authenticated keys)))
  unfolding run_service_handshake run_client_handshake make_hello
  run_service_handshake-run_client_handshake password ctext mtext nonce nonce' salt draws draws' a b
        ha hb sized_s sized sized' content cw cr mw mr base64 expands =
      let (keys, by_a, by_b, valid_a, valid_b) =
        agreed_keys-ok lib password onion salt draws draws' a b ha hb expands sized_s in
      let offered = make_offer-ok password draws salt b.message a base64 valid_b ha in
      let claimed =
        make_claim-ok ctext nonce salt a.message b keys base64 valid_a sized_s by_b cw in
      let confirmed =
        make_confirm-ok ctext mtext nonce nonce' salt b.message a keys base64 sized by_a cr mw in
      let ended = end_client-ok mtext nonce' keys base64 sized' mr content in
      (
        hello 1 (to_base64 b.message),
        offer 1 (to_base64 a.message) (to_base64 salt),
        claim (to_base64 (nonce ++ aead.seal keys.claim nonce [] ctext)),
        confirm (to_base64 (nonce' ++ aead.seal keys.confirm nonce' [] mtext)),
        keys,
        rw (hb, claimed, ended) refl,
        rw (offered, confirmed) refl,
      )
