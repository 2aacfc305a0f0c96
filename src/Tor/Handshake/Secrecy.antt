-- ===== src/Tor/Handshake/Secrecy.antt =====
-- What the service tells of the file, and to whom.
use ptransfer_cli.Common.{
  ℕ, ◌≡◌, refl, sym, ap, List, [], Option, Bool, true, false, not, ◌⊎◌, inl, inr, Bool-cases, all,
  Result, ok, err, or_err-next, >>=-ok, >>-ok, Result-cases,
}
use ptransfer_cli.Crypto.Aead.{Nonce}
use ptransfer_cli.Crypto.Kdf.{TorSessionKeys}
use ptransfer_cli.Crypto.Spake2.{PakeRun}
use ptransfer_cli.Tor.Handshake.{
  Frame, offer, Error, not_received, no_salt, Library, Dialogue, then_send, expect_hello,
  check_version, decode_pake_message, start_service, make_offer, make_confirm, end_service,
  run_service_handshake,
}
use ptransfer_cli.Tor.Handshake.Authenticated.{is_confirm, IsClaimed, make_confirm-IsClaimed}
use ptransfer_cli.Tor.Handshake.Begun.{IsAgreed, make_offer-IsBegun, make_confirm-IsAgreed}
use ptransfer_cli.Wire.{TransferMetadata}

abbrev pub has_no_confirm : List Frame → Bool
has_no_confirm sent = all (λ f. not (is_confirm f)) sent

offered-is_confirm :
    {B : Type 0} {version : ℕ} {element salt : List ℕ} {b c : B} {f : Frame}
    → ◌≡◌ {A = Result Error (Frame × B)} (ok (offer version element salt, b)) (ok (f, c))
    → is_confirm f ≡ false
offered-is_confirm {version = v} {element = e} {salt = s} {f = f} h =
    let same : offer v e s ≡ f = cc in ap is_confirm (sym same)

-- Where a step's frame is no confirm, the frames sent have one only where what follows sends one.
module _ {A B : Type 0} (X : Type 0) (delivers : Frame → Bool) where
  then_send-has_no_confirm :
      (r : Result Error (Frame × A)) (next : A → Dialogue B)
      → ((f : Frame) (a : A) → r ≡ ok (f, a) → is_confirm f ≡ false)
      → ((f : Frame) (a : A) → r ≡ ok (f, a) → (has_no_confirm (next a).0 ≡ true) ⊎ X)
      → (has_no_confirm (then_send delivers r next).0 ≡ true) ⊎ X
  then_send-has_no_confirm (err e) next plain later = inl refl
  then_send-has_no_confirm (ok (f, a)) next plain later =
      let first : is_confirm f ≡ false = plain f a refl in
      elim (Bool-cases (delivers f)) [
        | inr e ↦ inl (rw (e, first) refl)
        | inl e ↦ elim (later f a refl) [
          | inl none_later ↦ inl (rw (e, first) none_later)
          | inr x ↦ inr x
        ]
      ]

module _ (lib : Library) where
  open lib use {curve, to_base64}

  make_offer-is_confirm :
      (password : List ℕ) (draws : List (Option (List ℕ))) (salt : Option (List ℕ))
      (first : Option Frame) (f : Frame) (begun : PakeRun curve × (List ℕ × List ℕ))
      → make_offer lib password draws salt first ≡ ok (f, begun)
      → is_confirm f ≡ false
  unfolding make_offer
  make_offer-is_confirm password draws salt first f begun h =
      let (frame, taken, a) = or_err-next first not_received _ h in
      let ((version, element), greeted, b) = >>=-ok (expect_hello frame) _ a in
      let (versed, c) = >>-ok (check_version version) _ b in
      let (peer, decoded, d) = >>=-ok (decode_pake_message lib element) _ c in
      let (run, started, e) = >>=-ok (start_service lib password draws) _ d in
      let (drawn, salted, g) = or_err-next salt no_salt _ e in offered-is_confirm g

  -- Whatever the peer sends, a confirm, the one frame with the description of the file, goes out only
  -- where a claim of the right kind, version and address opened under the session keys that the run agrees
  -- on, with its password, address and salt, with the peer that greeted it.
  pub run_service_handshake-has_no_confirm :
      (password onion : List ℕ) (metadata : TransferMetadata) (draws : List (Option (List ℕ)))
      (salt : Option (List ℕ)) (nonce : Nonce) (delivers : Frame → Bool)
      (first second third : Option Frame)
      → (has_no_confirm
            (run_service_handshake lib password onion metadata draws salt nonce delivers first
              second third).0
          ≡ true)
        ⊎ ((keys : TorSessionKeys) × IsAgreed lib password onion draws salt first keys
            × IsClaimed lib onion keys second)
  unfolding run_service_handshake
  run_service_handshake-has_no_confirm password onion metadata draws salt nonce delivers first
        second third =
      then_send-has_no_confirm _ delivers (make_offer lib password draws salt first) _
        (make_offer-is_confirm password draws salt first)
        (λ f begun made. elim (Result-cases (make_confirm lib onion metadata nonce begun second)) [
          | inl ((g, keys), e) ↦ inr (
            keys,
            make_confirm-IsAgreed lib password onion draws salt metadata nonce begun first second g
                keys (make_offer-IsBegun lib password draws salt first f begun made) e,
            make_confirm-IsClaimed lib onion metadata nonce begun second g keys e,
          )
          | inr (e, refused) ↦ inl (
              ap
                (λ r.
                  has_no_confirm
                    (then_send delivers r (λ keys. ([], end_service lib keys third))).0)
                refused)
        ])
