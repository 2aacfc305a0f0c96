-- ===== src/Tor/Handshake/Authenticated.antt =====
-- What each side of the handshake has checked of the other by its end.
use ptransfer_cli.Common.{
  ℕ, ◌≡◌, refl, sym, ap, ◌∙◌, List, Option, none, some, Bool, true, false, not, ◌||◌, ◌==◌, ==_iff,
  inl, inr, Bool-cases, Result, ok, err, ensure-next, ensure-true, or_err-next, >>=-ok, >>-ok,
  arith,
}
use ptransfer_cli.Common.Bytes.{codes, bytes_eq, bytes_eq→eq}
use ptransfer_cli.Crypto.Aead.{Nonce}
use ptransfer_cli.Crypto.Kdf.{TorSessionKeys}
use ptransfer_cli.Crypto.Spake2.{PakeRun}
use ptransfer_cli.Tor.Handshake.Begun.{IsAgreed, make_offer-IsBegun, make_confirm-IsAgreed}
use ptransfer_cli.Tor.Handshake.{
  Frame, hello, offer, claim, confirm, ready, cancel, ClaimBody, ConfirmBody, ServiceHandshake,
  authenticated, cancelled, ClientHandshake, Error, not_received, not_sent, bad_body, wrong_address,
  bad_content, Library, Dialogue, then_send, expect_claim, expect_confirm, answered, open_sealed,
  agreed_keys, check_claim, check_confirm, make_offer, make_confirm, end_service,
  run_service_handshake, make_hello, make_claim, end_client, run_client_handshake, seal, claim_type,
  confirm_type,
}
use ptransfer_cli.Wire.{TransferMetadata}

not_sent-ok : {B : Type 0} {b : B} → err not_sent ≡ ok b → ⊥
not_sent-ok h = cc

then_send-ok :
    {A B : Type 0} (delivers : Frame → Bool) (r : Result Error (Frame × A)) (next : A → Dialogue B)
    {b : B}
    → (then_send delivers r next).1 ≡ ok b
    → (f : Frame) × (a : A) × (r ≡ ok (f, a)) × ((next a).1 ≡ ok b)
then_send-ok delivers (err e) next h = cc
then_send-ok delivers (ok (f, a)) next h = elim (Bool-cases (delivers f)) [
  | inl e ↦ (f, a, refl, rw e at h)
  | inr e ↦ absurd (not_sent-ok (rw e at h))
]

expect_claim-ok : (f : Frame) (sealed : List ℕ) → expect_claim f ≡ ok sealed → f ≡ claim sealed
expect_claim-ok (hello v e) sealed h = cc
expect_claim-ok (offer v e s) sealed h = cc
expect_claim-ok (claim s) sealed h = cc
expect_claim-ok (confirm s) sealed h = cc
expect_claim-ok ready sealed h = cc
expect_claim-ok cancel sealed h = cc

expect_confirm-ok :
    (f : Frame) (sealed : List ℕ) → expect_confirm f ≡ ok sealed → f ≡ confirm sealed
expect_confirm-ok (hello v e) sealed h = cc
expect_confirm-ok (offer v e s) sealed h = cc
expect_confirm-ok (claim s) sealed h = cc
expect_confirm-ok (confirm s) sealed h = cc
expect_confirm-ok ready sealed h = cc
expect_confirm-ok cancel sealed h = cc

abbrev pub is_confirm : Frame → Bool
is_confirm (hello v e) = false
is_confirm (offer v e s) = false
is_confirm (claim s) = false
is_confirm (confirm s) = true
is_confirm ready = false
is_confirm cancel = false

module _ (lib : Library) where
  open lib use {curve, read_claim, read_confirm}

  -- The frame that a side took is a claim that opens under the key, of the right kind, version and
  -- address.
  abbrev pub IsClaimed : List ℕ → TorSessionKeys → Option Frame → Type 0
  IsClaimed onion keys second =
      (sealed : List ℕ) × (body : ClaimBody) × (second ≡ some (claim sealed))
      × (open_sealed lib keys.claim read_claim sealed ≡ ok body)
      × (body.body_type ≡ claim_type)
      × (body.version ≡ 1)
      × (body.onion ≡ onion)

  check_claim-ok :
      (body : ClaimBody) (onion : List ℕ)
      → check_claim lib body onion ≡ ok tt
      → (body.body_type ≡ claim_type) × (body.version ≡ 1) × (body.onion ≡ onion)
  check_claim-ok body onion h =
      let a =
        ensure-next (not (not (bytes_eq body.body_type claim_type) || not (body.version == 1)))
          bad_body _ h in
      let b = ensure-true (bytes_eq body.onion onion) wrong_address a.1 in
      (
        bytes_eq→eq body.body_type claim_type (ground (arith, a.0)),
        (==_iff body.version 1).0 (ground (arith, a.0)),
        bytes_eq→eq body.onion onion b,
      )

  pub make_confirm-IsClaimed :
      (onion : List ℕ) (metadata : TransferMetadata) (nonce : Nonce)
      (begun : PakeRun curve × (List ℕ × List ℕ)) (second : Option Frame) (f : Frame)
      (keys : TorSessionKeys)
      → make_confirm lib onion metadata nonce begun second ≡ ok (f, keys)
      → IsClaimed onion keys second
  unfolding make_confirm
  make_confirm-IsClaimed onion metadata nonce (run, (peer, salt)) second f keys h =
      let (found, agreed, a) = >>=-ok (agreed_keys lib run peer onion salt) _ h in
      let (frame, taken, b) = or_err-next second not_received _ a in
      let (sealed, is_claim, c) = >>=-ok (expect_claim frame) _ b in
      let (body, opened, d) = >>=-ok (open_sealed lib found.claim read_claim sealed) _ c in
      let (checked, e) = >>-ok (check_claim lib body onion) _ d in
      let (answer, written, same) = >>=-ok (seal lib found.confirm _ nonce) _ e in
      let of_run : found ≡ keys = cc in
      let (kind, version, address) = check_claim-ok body onion checked in
      (
        sealed,
        body,
        taken ∙ ap some (expect_claim-ok frame sealed is_claim),
        ap (λ k. open_sealed lib k.claim read_claim sealed) (sym of_run) ∙ opened,
        kind,
        version,
        address,
      )

  -- What the service ends with, by the frame that the client ended with.
  abbrev pub IsAnswered : TorSessionKeys → ServiceHandshake → Option Frame → Type 0
  IsAnswered keys (authenticated k) third = (third ≡ some ready) × (k ≡ keys)
  IsAnswered keys cancelled third = third ≡ some cancel

  answered-IsAnswered :
      (keys : TorSessionKeys) (f : Frame) (h : ServiceHandshake)
      → answered keys f ≡ ok h
      → IsAnswered keys h (some f)
  answered-IsAnswered keys (hello v e) h r = cc
  answered-IsAnswered keys (offer v e s) h r = cc
  answered-IsAnswered keys (claim s) h r = cc
  answered-IsAnswered keys (confirm s) h r = cc
  answered-IsAnswered keys ready (authenticated k) r = (refl, cc)
  answered-IsAnswered keys ready cancelled r = cc
  answered-IsAnswered keys cancel (authenticated k) r = cc
  answered-IsAnswered keys cancel cancelled r = refl

  end_service-IsAnswered :
      (keys : TorSessionKeys) (third : Option Frame) (h : ServiceHandshake)
      → end_service lib keys third ≡ ok h
      → IsAnswered keys h third
  end_service-IsAnswered keys none h r = cc
  end_service-IsAnswered keys (some f) h r = answered-IsAnswered keys f h r

  -- Whatever the peer sends, a service whose handshake ends has opened a claim of the right kind,
  -- version and address under the session keys that its run agrees on, with its password, address and salt,
  -- with the peer that greeted it; it is ready only after a ready frame, with these keys, and it is cancelled only after a cancel frame.
  pub run_service_handshake-IsClaimed :
      (password onion : List ℕ) (metadata : TransferMetadata) (draws : List (Option (List ℕ)))
      (salt : Option (List ℕ)) (nonce : Nonce) (delivers : Frame → Bool)
      (first second third : Option Frame) (h : ServiceHandshake)
      → (run_service_handshake lib password onion metadata draws salt nonce delivers first second
          third).1
        ≡ ok h
      → (keys : TorSessionKeys) × IsAgreed lib password onion draws salt first keys
        × IsClaimed onion keys second
        × IsAnswered keys h third
  unfolding run_service_handshake
  run_service_handshake-IsClaimed password onion metadata draws salt nonce delivers first second
        third h r =
      let (f, begun, made, a) =
        then_send-ok delivers (make_offer lib password draws salt first) _ r in
      let (g, keys, confirmed, b) =
        then_send-ok delivers (make_confirm lib onion metadata nonce begun second) _ a in
      (
        keys,
        make_confirm-IsAgreed lib password onion draws salt metadata nonce begun first second g keys
            (make_offer-IsBegun lib password draws salt first f begun made) confirmed,
        make_confirm-IsClaimed onion metadata nonce begun second g keys confirmed,
        end_service-IsAnswered keys third h b,
      )

  check_confirm-ok :
      (body : ConfirmBody) (onion : List ℕ)
      → check_confirm lib body onion ≡ ok tt
      → (body.body_type ≡ confirm_type)
        × (body.version ≡ 1)
        × (body.onion ≡ onion)
        × (body.metadata.content_type ≡ codes "file")
  check_confirm-ok body onion h =
      let a =
        ensure-next (not (not (bytes_eq body.body_type confirm_type) || not (body.version == 1)))
          bad_body _ h in
      let b = ensure-next (bytes_eq body.onion onion) wrong_address _ a.1 in
      let c = ensure-true (bytes_eq body.metadata.content_type (codes "file")) bad_content b.1 in
      (
        bytes_eq→eq body.body_type confirm_type (ground (arith, a.0)),
        (==_iff body.version 1).0 (ground (arith, a.0)),
        bytes_eq→eq body.onion onion b.0,
        bytes_eq→eq body.metadata.content_type (codes "file") c,
      )

  abbrev pub IsConfirmed : List ℕ → ClientHandshake → Option Frame → Type 0
  IsConfirmed onion h second =
      (sealed : List ℕ) × (body : ConfirmBody) × (second ≡ some (confirm sealed))
      × (open_sealed lib h.keys.confirm read_confirm sealed ≡ ok body)
      × (body.body_type ≡ confirm_type)
      × (body.version ≡ 1)
      × (body.onion ≡ onion)
      × (body.metadata.content_type ≡ codes "file")
      × (h.metadata ≡ body.metadata)

  end_client-IsConfirmed :
      (onion : List ℕ) (keys : TorSessionKeys) (second : Option Frame) (h : ClientHandshake)
      → end_client lib onion keys second ≡ ok h
      → IsConfirmed onion h second
  unfolding end_client
  end_client-IsConfirmed onion keys second h r =
      let (frame, taken, a) = or_err-next second not_received _ r in
      let (sealed, is_confirmed, b) = >>=-ok (expect_confirm frame) _ a in
      let (body, opened, c) = >>=-ok (open_sealed lib keys.confirm read_confirm sealed) _ b in
      let (checked, made) = >>-ok (check_confirm lib body onion) _ c in
      let (kind, version, address, content) = check_confirm-ok body onion checked in
      let ended : ClientHandshake = record { keys = keys; metadata = body.metadata } in
      let same : ended ≡ h = cc in
      (
        sealed,
        body,
        taken ∙ ap some (expect_confirm-ok frame sealed is_confirmed),
        ap (λ e. open_sealed lib e.keys.confirm read_confirm sealed) (sym same) ∙ opened,
        kind,
        version,
        address,
        content,
        ap (λ e. e.metadata) (sym same),
      )

  -- A client whose handshake ends has opened, under the keys that it returns, a confirm of the right kind,
  -- version, address and content, and returns the description of the file in it.
  pub run_client_handshake-IsConfirmed :
      (password onion : List ℕ) (draws : List (Option (List ℕ))) (nonce : Nonce)
      (delivers : Frame → Bool) (first second : Option Frame) (h : ClientHandshake)
      → (run_client_handshake lib password onion draws nonce delivers first second).1 ≡ ok h
      → IsConfirmed onion h second
  unfolding run_client_handshake
  run_client_handshake-IsConfirmed password onion draws nonce delivers first second h r =
      let (f, run, made, a) = then_send-ok delivers (make_hello lib password draws) _ r in
      let (g, keys, claimed, b) =
        then_send-ok delivers (make_claim lib onion nonce run first) _ a in
      end_client-IsConfirmed onion keys second h b
