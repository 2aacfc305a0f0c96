-- ===== src/Tor/Handshake/Begun.antt =====
-- What the service's side of the handshake has agreed on by its confirm.
use ptransfer_cli.Common.{
  ℕ, ◌≡◌, ap, ap₂, subst, ok_injective, with_err, with_err-ok, ◌∙◌, List, Option, some, Result, ok,
  or_err-next, >>=-ok, >>-ok, arith,
}
use ptransfer_cli.Crypto.Aead.{Nonce}
use ptransfer_cli.Crypto.Kdf.{TorSessionKeys, tor_session_keys}
use ptransfer_cli.Crypto.Spake2.{PakeRun, sender, tor, derive_pake_secret, start, finish}
use ptransfer_cli.Tor.Handshake.{
  Frame, hello, offer, claim, confirm, ready, cancel, Error, not_received, Library, expect_hello,
  expect_claim, check_version, decode_pake_message, start_service, no_salt, pake_failed, no_keys,
  open_sealed, agreed_keys, check_claim, make_offer, make_confirm, seal,
}
use ptransfer_cli.Wire.{TransferMetadata}

module _ (lib : Library) where
  open lib use {curve, order, expand, sha256, read_claim, read_confirm, to_base64}

  -- The session keys that the service's run agrees on with the peer that greeted it: the root that SPAKE2
  -- gives for its password and draws, the peer's element and its address, spread with its salt.
  abbrev pub IsAgreed :
      List ℕ
      → List ℕ
      → List (Option (List ℕ))
      → Option (List ℕ)
      → Option Frame
      → TorSessionKeys
      → Type 0
  IsAgreed password onion draws drawn_salt first keys =
      (secret : List ℕ) × (run : PakeRun curve) × (element : List ℕ) × (peer : List ℕ)
      × (salt : List ℕ) × (root : List ℕ) × (derive_pake_secret order expand password ≡ ok secret)
      × (start curve sender secret draws ≡ ok run)
      × (first ≡ some (hello 1 element))
      × (decode_pake_message lib element ≡ ok peer)
      × (drawn_salt ≡ some salt)
      × (finish curve sha256 run peer (tor onion) ≡ ok root)
      × (tor_session_keys expand root salt ≡ ok keys)

  -- What a service has begun with its offer.
  abbrev pub IsBegun :
      List ℕ
      → List (Option (List ℕ))
      → Option (List ℕ)
      → Option Frame
      → PakeRun curve × (List ℕ × List ℕ)
      → Type 0
  IsBegun password draws drawn_salt first begun =
      (element : List ℕ) × (start_service lib password draws ≡ ok begun.0)
      × (first ≡ some (hello 1 element))
      × (decode_pake_message lib element ≡ ok begun.1.0)
      × (drawn_salt ≡ some begun.1.1)

  expect_hello-ok :
      (f : Frame) (version : ℕ) (element : List ℕ)
      → expect_hello f ≡ ok (version, element)
      → f ≡ hello version element
  expect_hello-ok (hello v e) version element h =
      let (same_v, same_e) : (v ≡ version) × (e ≡ element) = (cc, cc) in ap₂ hello same_v same_e
  expect_hello-ok (offer v e s) version element h = cc
  expect_hello-ok (claim s) version element h = cc
  expect_hello-ok (confirm s) version element h = cc
  expect_hello-ok ready version element h = cc
  expect_hello-ok cancel version element h = cc

  version_one : (version : ℕ) → check_version version ≡ ok tt → version ≡ 1
  version_one version h = ground (arith, h)

  begun_same :
      (f g : Frame) (run : PakeRun curve) (peer salt : List ℕ)
      (begun : PakeRun curve × (List ℕ × List ℕ))
      → ◌≡◌ {A = Result Error (Frame × (PakeRun curve × (List ℕ × List ℕ)))}
          (ok (f, (run, (peer, salt))))
          (ok (g, begun))
      → ◌≡◌ {A = PakeRun curve × (List ℕ × List ℕ)} (run, (peer, salt)) begun
  begun_same f g run peer salt begun h = ap (λ q. q.1) (ok_injective h)

  pub make_offer-IsBegun :
      (password : List ℕ) (draws : List (Option (List ℕ))) (drawn_salt : Option (List ℕ))
      (first : Option Frame) (f : Frame) (begun : PakeRun curve × (List ℕ × List ℕ))
      → make_offer lib password draws drawn_salt first ≡ ok (f, begun)
      → IsBegun password draws drawn_salt first begun
  unfolding make_offer
  make_offer-IsBegun password draws drawn_salt first f begun h =
      let (frame, taken, a) = or_err-next first not_received _ h in
      let ((version, element), greeted, b) = >>=-ok (expect_hello frame) _ a in
      let (versed, c) = >>-ok (check_version version) _ b in
      let (peer, decoded, d) = >>=-ok (decode_pake_message lib element) _ c in
      let (run, started, e) = >>=-ok (start_service lib password draws) _ d in
      let (salt, salted, g) = or_err-next drawn_salt no_salt _ e in
      let greeting =
        expect_hello-ok frame version element greeted
        ∙ ap (λ v. hello v element) (version_one version versed) in
      subst (IsBegun password draws drawn_salt first)
        (begun_same (offer 1 (to_base64 run.message) (to_base64 salt)) f run peer salt begun g)
        (element, started, taken ∙ ap some greeting, decoded, salted)

  pub make_confirm-IsAgreed :
      (password onion : List ℕ) (draws : List (Option (List ℕ))) (drawn_salt : Option (List ℕ))
      (metadata : TransferMetadata) (nonce : Nonce) (begun : PakeRun curve × (List ℕ × List ℕ))
      (first second : Option Frame) (f : Frame) (keys : TorSessionKeys)
      → IsBegun password draws drawn_salt first begun
      → make_confirm lib onion metadata nonce begun second ≡ ok (f, keys)
      → IsAgreed password onion draws drawn_salt first keys
  unfolding make_confirm
  make_confirm-IsAgreed password onion draws drawn_salt metadata nonce (run, (peer, salt)) first
        second f keys (element, started, greeted, decoded, salted) h =
      let (found, agreed, a) = >>=-ok (agreed_keys lib run peer onion salt) _ h in
      let (frame, taken, b) = or_err-next second not_received _ a in
      let (sealed, is_claim, c) = >>=-ok (expect_claim frame) _ b in
      let (body, opened, d) = >>=-ok (open_sealed lib found.claim read_claim sealed) _ c in
      let (checked, e) = >>-ok (check_claim lib body onion) _ d in
      let (answer, written, same) = >>=-ok (seal lib found.confirm _ nonce) _ e in
      let of_run : found ≡ keys = cc in
      let (secret, derived, started') =
        >>=-ok (with_err (derive_pake_secret order expand password) pake_failed) _ started in
      let (root, finished, keyed) =
        >>=-ok (with_err (finish curve sha256 run peer (tor onion)) pake_failed) _ agreed in
      (
        secret,
        run,
        element,
        peer,
        salt,
        root,
        with_err-ok (derive_pake_secret order expand password) pake_failed derived,
        with_err-ok (start curve sender secret draws) pake_failed started',
        greeted,
        decoded,
        salted,
        with_err-ok (finish curve sha256 run peer (tor onion)) pake_failed finished,
        with_err-ok (tor_session_keys expand root salt) no_keys keyed ∙ ap ok of_run,
      )
