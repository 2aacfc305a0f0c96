-- ===== src/Code/Payload.antt =====
-- src/code/payload.rs: the payload of a hand-carried code, its validation and its fields. A text is
-- the list of its characters. The `url` and `base64` crates are parameters.
pub mod Container
pub mod Obfuscated
pub mod RoundTrip
pub mod Decoded
mod Runs
pub mod Valid
use ptransfer_cli.Common.{
  ℕ, ◌+◌, ◌*◌, List, [], ◌∷◌, Option, none, some, Bool, true, false, not, ◌&&◌, ◌||◌, leb, ltb,
  ◌==◌, if◌then◌else◌, length, is_empty, and_then, is_some, Result, ok, err, ◌>>=◌, ◌>>◌, ensure,
  or_err, with_err,
}
use ptransfer_cli.Common.Int.{ℤ, pos, negsuc, saturating_sub, exceeds}
use ptransfer_cli.NostrFile.{div_ceil}
use ptransfer_cli.NostrFile.RelayUrl.{Url, offer_relays, text_len}
use ptransfer_cli.Wire.{WireEncoding}

abbrev pub transfer_expiration_ms : ℕ
transfer_expiration_ms = 60 * 60 * 1000

abbrev pub answer_confirmation_len : ℕ
answer_confirmation_len = 16

abbrev pub code_salt_len : ℕ
code_salt_len = 16

abbrev pub public_key_len : ℕ
public_key_len = 65

abbrev pub max_created_at_ms : ℕ
max_created_at_ms = 253_402_300_799_999

abbrev pub offer_relay_count : ℕ
offer_relay_count = 6

abbrev pub min_offer_relays : ℕ
min_offer_relays = 2

pub data PayloadKind : Type 0 where
  offer answer : PayloadKind

pub record SignalingPayload : Type 0 where
  pub kind : PayloadKind
  pub sdp : List ℕ
  pub candidates : List (List ℕ)
  pub created_at : ℤ
  pub public_key : List ℕ
  pub confirm : Option (List ℕ)
  pub file_name : Option (List ℕ)
  pub file_size : Option ℕ
  pub content_encoding : Option WireEncoding
  pub mime_type : Option (List ℕ)
  pub salt : Option (List ℕ)
  pub relays : Option (List (List ℕ))
  pub anon : Option Bool

pub data Error : Type 0 where
  bad_public_key bad_time offer_with_tag anon_false relays_and_anon bad_relays no_salt bad_salt :
      Error
  no_file_name no_file_size no_encoding answer_with_offer_field no_tag bad_tag : Error
  not_serialized not_a_code stale_code not_inflated unreadable_payload : Error
  expired not_base64 : Error

-- `Option::is_some_and` and `Option::is_none_or`
abbrev pub is_some_and {ℓ} : {A : Type ℓ} → (A → Bool) → Option A → Bool
is_some_and test none = false
is_some_and test (some a) = test a

abbrev pub is_none_or {ℓ} : {A : Type ℓ} → (A → Bool) → Option A → Bool
is_none_or test none = true
is_none_or test (some a) = test a

-- `kind == PayloadKind::Offer`
abbrev pub is_offer : PayloadKind → Bool
is_offer offer = true
is_offer answer = false

abbrev pub is_anonymous : SignalingPayload → Bool
is_anonymous p = is_offer p.kind && is_some_and (λ anon. anon) p.anon

-- `(0..=MAX_CREATED_AT_MS).contains(&created_at)`
abbrev pub is_time : ℤ → Bool
is_time (pos ms) = leb ms max_created_at_ms
is_time (negsuc n) = false

unfoldable pub offer_salt : SignalingPayload → Result Error (List ℕ)
offer_salt p = do
  salt ← or_err p.salt no_salt
  ensure (length salt == code_salt_len) bad_salt
  ok salt

unfoldable pub peer_public_key : SignalingPayload → Result Error (List ℕ)
peer_public_key p = do
  ensure (length p.public_key == public_key_len) bad_public_key
  ok p.public_key

-- `now` is the clock's milliseconds since the epoch.
unfoldable pub check_freshness : ℤ → ℤ → Result Error (Unit {0})
check_freshness now created_at =
    ensure (not (exceeds (saturating_sub now created_at) transfer_expiration_ms)) expired

abbrev pub to_option {ℓ} : {E : Type 0} {A : Type ℓ} → Result E A → Option A
to_option (ok a) = some a
to_option (err e) = none

module _ (parse : List ℕ → Option Url) where
  unfoldable pub fallback_relays_from : List (List ℕ) → Result Error (List (List ℕ))
  fallback_relays_from relays =
      with_err (offer_relays parse relays offer_relay_count min_offer_relays) bad_relays

  unfoldable pub fallback_relays : SignalingPayload → Option (List (List ℕ))
  fallback_relays p =
      if not (is_offer p.kind) || is_anonymous p
      then none
      else and_then p.relays (λ relays. to_option (fallback_relays_from relays))

  -- `if let Some(relays) = relays { fallback_relays_from(relays)?; }`
  abbrev pub check_offer_relays : Option (List (List ℕ)) → Result Error (Unit {0})
  check_offer_relays none = ok tt
  check_offer_relays (some relays) = do fallback ← fallback_relays_from relays; ok tt

  unfoldable pub validate_offer : SignalingPayload → Result Error (Unit {0})
  validate_offer p = do
    ensure (not (is_some p.confirm)) offer_with_tag
    ensure (not (is_some_and not p.anon)) anon_false
    ensure (not (is_some p.relays && is_some p.anon)) relays_and_anon
    check_offer_relays p.relays
    salt ← or_err p.salt no_salt
    ensure (length salt == code_salt_len) bad_salt
    ensure (not (is_none_or is_empty p.file_name)) no_file_name
    ensure (is_some p.file_size) no_file_size
    ensure (is_some p.content_encoding) no_encoding

abbrev pub has_offer_field : SignalingPayload → Bool
has_offer_field p =
    is_some p.salt
    || is_some p.relays
    || is_some p.anon
    || is_some p.file_name
    || is_some p.file_size
    || is_some p.content_encoding
    || is_some p.mime_type

module _ (decode_base64 : List ℕ → Option (List ℕ)) where
  -- The tag, where the field decodes to one.
  unfoldable pub decode_answer_confirmation : List ℕ → Option (List ℕ)
  decode_answer_confirmation value =
      if not (text_len value == div_ceil answer_confirmation_len 3 * 4)
      then none
      else and_then (decode_base64 value)
          (λ bytes. if not (length bytes == answer_confirmation_len) then none else some bytes)

  unfoldable pub confirmation_tag : SignalingPayload → Option (List ℕ)
  confirmation_tag p = and_then p.confirm decode_answer_confirmation

  unfoldable pub validate_answer : SignalingPayload → Result Error (Unit {0})
  validate_answer p = do
    ensure (not (has_offer_field p)) answer_with_offer_field
    confirm ← or_err p.confirm no_tag
    ensure (is_some (decode_answer_confirmation confirm)) bad_tag

module _ (parse : List ℕ → Option Url) (decode_base64 : List ℕ → Option (List ℕ)) where
  abbrev pub validate_kind : PayloadKind → SignalingPayload → Result Error (Unit {0})
  validate_kind offer p = validate_offer parse p
  validate_kind answer p = validate_answer decode_base64 p

  unfoldable pub validate : SignalingPayload → Result Error (Unit {0})
  unfolding validate_offer validate_answer
  validate p = do
    ensure (length p.public_key == public_key_len) bad_public_key
    ensure (is_time p.created_at) bad_time
    validate_kind p.kind p
