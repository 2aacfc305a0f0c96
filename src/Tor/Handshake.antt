-- ===== src/Tor/Handshake.antt =====
-- src/tor/handshake.rs: the password-authenticated handshake of the onion transport. What recv_frame
-- gives is a frame, or nothing where the stream ends or carries no frame; whether a frame goes through
-- is an argument. serde_json's texts of the sealed bodies and base64 are parameters.
pub mod Begun
pub mod Authenticated
pub mod Agreed
pub mod Honest
pub mod Secrecy
mod Runs
use ptransfer_cli.Common.{
  ℕ, List, [], ◌∷◌, Option, none, some, Bool, true, false, not, ◌&&◌, ◌||◌, ◌==◌, if◌then◌else◌,
  length, Result, ok, err, ◌>>=◌, ◌>>◌, ensure, or_err, with_err,
}
use ptransfer_cli.Common.Bytes.{codes, bytes_eq}
use ptransfer_cli.Crypto.Aead.{Aead, Nonce}
use ptransfer_cli.Crypto.Aes.{encrypt, decrypt}
use ptransfer_cli.Crypto.Kdf.{TorSessionKeys, tor_session_keys, salt_len}
use ptransfer_cli.Crypto.Spake2.{
  Curve, PakeRun, sender, receiver, tor, derive_pake_secret, start, finish, is_valid_pake_message,
}
use ptransfer_cli.Wire.{TransferMetadata}

abbrev pub tor_handshake_version : ℕ
tor_handshake_version = 1

pub data Frame : Type 0 where
  -- version, element
  hello : ℕ → List ℕ → Frame
  -- version, element, salt
  offer : ℕ → List ℕ → List ℕ → Frame
  claim : List ℕ → Frame
  confirm : List ℕ → Frame
  ready cancel : Frame

pub record ClaimBody : Type 0 where
  pub body_type : List ℕ
  pub version : ℕ
  pub onion : List ℕ

pub record ConfirmBody : Type 0 where
  pub body_type : List ℕ
  pub version : ℕ
  pub onion : List ℕ
  pub metadata : TransferMetadata

abbrev pub claim_type : List ℕ
claim_type = codes "claim"

abbrev pub confirm_type : List ℕ
confirm_type = codes "confirm"

pub data ServiceHandshake : Type 0 where
  authenticated : TorSessionKeys → ServiceHandshake
  cancelled : ServiceHandshake

pub record ClientHandshake : Type 0 where
  pub keys : TorSessionKeys
  pub metadata : TransferMetadata

pub data Error : Type 0 where
  not_received unexpected_frame bad_version bad_element pake_failed no_salt bad_salt : Error
  no_keys not_sealed not_authenticated bad_body wrong_address bad_content not_sent : Error

-- What both sides use of the libraries.
pub record Library : Type 1 where
  pub curve : Curve
  pub order : ℕ
  pub sha256 : List ℕ → List ℕ
  pub expand : List ℕ → List ℕ → List ℕ → ℕ → Option (List ℕ)
  pub aead : Aead
  pub to_base64 : List ℕ → List ℕ
  pub from_base64 : List ℕ → Option (List ℕ)
  pub claim_json : ClaimBody → Option (List ℕ)
  pub read_claim : List ℕ → Option ClaimBody
  pub confirm_json : ConfirmBody → Option (List ℕ)
  pub read_confirm : List ℕ → Option ConfirmBody

abbrev pub check_version : ℕ → Result Error (Unit {0})
check_version version = ensure (version == tor_handshake_version) bad_version

-- The frames that a side sent, and how its run ended.
abbrev pub Dialogue : Type 0 → Type 0
Dialogue A = List Frame × Result Error A

-- A step that ends by sending a frame, and what follows it.
abbrev pub then_send :
    {A B : Type 0} → (Frame → Bool) → Result Error (Frame × A) → (A → Dialogue B) → Dialogue B
then_send delivers (err e) next = ([], err e)
then_send delivers (ok (frame, a)) next =
    let later = next a in
    if delivers frame then (frame ∷ later.0, later.1) else (frame ∷ [], err not_sent)

abbrev pub expect_hello : Frame → Result Error (ℕ × List ℕ)
expect_hello (hello version element) = ok (version, element)
expect_hello (offer version element salt) = err unexpected_frame
expect_hello (claim sealed) = err unexpected_frame
expect_hello (confirm sealed) = err unexpected_frame
expect_hello ready = err unexpected_frame
expect_hello cancel = err unexpected_frame

abbrev pub expect_offer : Frame → Result Error (ℕ × (List ℕ × List ℕ))
expect_offer (hello version element) = err unexpected_frame
expect_offer (offer version element salt) = ok (version, (element, salt))
expect_offer (claim sealed) = err unexpected_frame
expect_offer (confirm sealed) = err unexpected_frame
expect_offer ready = err unexpected_frame
expect_offer cancel = err unexpected_frame

abbrev pub expect_claim : Frame → Result Error (List ℕ)
expect_claim (hello version element) = err unexpected_frame
expect_claim (offer version element salt) = err unexpected_frame
expect_claim (claim sealed) = ok sealed
expect_claim (confirm sealed) = err unexpected_frame
expect_claim ready = err unexpected_frame
expect_claim cancel = err unexpected_frame

abbrev pub expect_confirm : Frame → Result Error (List ℕ)
expect_confirm (hello version element) = err unexpected_frame
expect_confirm (offer version element salt) = err unexpected_frame
expect_confirm (claim sealed) = err unexpected_frame
expect_confirm (confirm sealed) = ok sealed
expect_confirm ready = err unexpected_frame
expect_confirm cancel = err unexpected_frame

-- The last `match` of the service.
abbrev pub answered : TorSessionKeys → Frame → Result Error ServiceHandshake
answered keys (hello version element) = err unexpected_frame
answered keys (offer version element salt) = err unexpected_frame
answered keys (claim sealed) = err unexpected_frame
answered keys (confirm sealed) = err unexpected_frame
answered keys ready = ok (authenticated keys)
answered keys cancel = ok cancelled

module _ (lib : Library) where
  open lib use {
    curve, order, sha256, expand, aead, to_base64, from_base64, claim_json, read_claim,
    confirm_json, read_confirm,
  }

  abbrev pub decode_pake_message : List ℕ → Result Error (List ℕ)
  decode_pake_message encoded = do
    message ← or_err (from_base64 encoded) bad_element
    ensure (is_valid_pake_message curve message) bad_element
    ok message

  -- `seal` and `open_sealed`, with the JSON text written and read outside.
  abbrev pub seal : List ℕ → Option (List ℕ) → Nonce → Result Error (List ℕ)
  seal key json nonce = do
    text ← or_err json not_sealed
    sealed ← with_err (encrypt aead key text nonce) not_sealed
    ok (to_base64 sealed)

  abbrev pub open_sealed : {A : Type 0} → List ℕ → (List ℕ → Option A) → List ℕ → Result Error A
  open_sealed key read sealed = do
    bytes ← or_err (from_base64 sealed) not_authenticated
    text ← with_err (decrypt aead key bytes) not_authenticated
    or_err (read text) not_authenticated

  -- `PakeRun::start` over the secret of the password, and the keys of a finished run.
  abbrev pub start_service : List ℕ → List (Option (List ℕ)) → Result Error (PakeRun curve)
  start_service password draws = do
    secret ← with_err (derive_pake_secret order expand password) pake_failed
    with_err (start curve sender secret draws) pake_failed

  abbrev pub start_client : List ℕ → List (Option (List ℕ)) → Result Error (PakeRun curve)
  start_client password draws = do
    secret ← with_err (derive_pake_secret order expand password) pake_failed
    with_err (start curve receiver secret draws) pake_failed

  abbrev pub agreed_keys : PakeRun curve → List ℕ → List ℕ → List ℕ → Result Error TorSessionKeys
  agreed_keys run peer_message onion salt = do
    root ← with_err (finish curve sha256 run peer_message (tor onion)) pake_failed
    with_err (tor_session_keys expand root salt) no_keys

  -- The service up to its offer, with its run, the peer's element and the salt.
  unfoldable pub make_offer :
      List ℕ
      → List (Option (List ℕ))
      → Option (List ℕ)
      → Option Frame
      → Result Error (Frame × (PakeRun curve × (List ℕ × List ℕ)))
  make_offer password draws drawn_salt first = do
    frame ← or_err first not_received
    (version, element) ← expect_hello frame
    check_version version
    peer_message ← decode_pake_message element
    run ← start_service password draws
    salt ← or_err drawn_salt no_salt
    ok (
      offer tor_handshake_version (to_base64 run.message) (to_base64 salt),
      (run, (peer_message, salt)),
    )

  -- The check of an opened claim.
  abbrev pub check_claim : ClaimBody → List ℕ → Result Error (Unit {0})
  check_claim body onion = do
    ensure
        (not
          (not (bytes_eq body.body_type claim_type) || not (body.version == tor_handshake_version)))
        bad_body
    ensure (bytes_eq body.onion onion) wrong_address

  -- The service from its offer to its confirm.
  unfoldable pub make_confirm :
      List ℕ
      → TransferMetadata
      → Nonce
      → PakeRun curve × (List ℕ × List ℕ)
      → Option Frame
      → Result Error (Frame × TorSessionKeys)
  make_confirm onion metadata nonce (run, (peer_message, salt)) second = do
    keys ← agreed_keys run peer_message onion salt
    frame ← or_err second not_received
    sealed ← expect_claim frame
    body ← open_sealed keys.claim read_claim sealed
    check_claim body onion
    answer ←
        seal keys.confirm
          (confirm_json record {
            body_type = confirm_type;
            version = tor_handshake_version;
            onion = onion;
            metadata = metadata;
          })
          nonce
    ok (confirm answer, keys)

  abbrev pub end_service : TorSessionKeys → Option Frame → Result Error ServiceHandshake
  end_service keys third = do frame ← or_err third not_received; answered keys frame

  -- The password, the address, what is on offer, the random scalars, salt and nonce, whether a frame
  -- goes through, and the three frames received.
  unfoldable pub run_service_handshake :
      List ℕ
      → List ℕ
      → TransferMetadata
      → List (Option (List ℕ))
      → Option (List ℕ)
      → Nonce
      → (Frame → Bool)
      → Option Frame
      → Option Frame
      → Option Frame
      → Dialogue ServiceHandshake
  run_service_handshake password onion metadata draws drawn_salt nonce delivers first second third =
      then_send delivers (make_offer password draws drawn_salt first) (λ begun.
        then_send delivers (make_confirm onion metadata nonce begun second)
          (λ keys. ([], end_service keys third)))

  unfoldable pub make_hello : List ℕ → List (Option (List ℕ)) → Result Error (Frame × PakeRun curve)
  make_hello password draws = do
    run ← start_client password draws
    ok (hello tor_handshake_version (to_base64 run.message), run)

  -- The client from its hello to its claim.
  unfoldable pub make_claim :
      List ℕ → Nonce → PakeRun curve → Option Frame → Result Error (Frame × TorSessionKeys)
  make_claim onion nonce run first = do
    frame ← or_err first not_received
    (version, (element, written_salt)) ← expect_offer frame
    check_version version
    peer_message ← decode_pake_message element
    salt ← or_err (from_base64 written_salt) bad_salt
    ensure (length salt == salt_len) bad_salt
    keys ← agreed_keys run peer_message onion salt
    sealed ←
        seal keys.claim
          (claim_json
            record { body_type = claim_type; version = tor_handshake_version; onion = onion })
          nonce
    ok (claim sealed, keys)

  abbrev pub check_confirm : ConfirmBody → List ℕ → Result Error (Unit {0})
  check_confirm body onion = do
    ensure
        (not (
          not (bytes_eq body.body_type confirm_type)
          || not (body.version == tor_handshake_version)))
        bad_body
    ensure (bytes_eq body.onion onion) wrong_address
    ensure (bytes_eq body.metadata.content_type (codes "file")) bad_content

  unfoldable pub end_client : List ℕ → TorSessionKeys → Option Frame → Result Error ClientHandshake
  end_client onion keys second = do
    frame ← or_err second not_received
    sealed ← expect_confirm frame
    body ← open_sealed keys.confirm read_confirm sealed
    check_confirm body onion
    ok record { keys = keys; metadata = body.metadata }

  unfoldable pub run_client_handshake :
      List ℕ
      → List ℕ
      → List (Option (List ℕ))
      → Nonce
      → (Frame → Bool)
      → Option Frame
      → Option Frame
      → Dialogue ClientHandshake
  run_client_handshake password onion draws nonce delivers first second =
      then_send delivers (make_hello password draws) (λ run.
        then_send delivers (make_claim onion nonce run first)
          (λ keys. ([], end_client onion keys second)))
