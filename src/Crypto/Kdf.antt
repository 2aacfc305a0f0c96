-- ===== src/Crypto/Kdf.antt =====
-- src/crypto/kdf.rs: the keys derived from a SPAKE2 root. `expand` is HKDF-SHA256 of the `hkdf` crate: a
-- salt, the input keying material, an info text and a length give that many bytes, or its error.
use ptransfer_cli.Common.{
  ℕ, List, ◌∷◌, ◌++◌, Option, not, ltb, length, Result, ok, ◌>>=◌, ◌>>◌, ensure, or_err,
}
use ptransfer_cli.Common.Bytes.{codes}
use ptransfer_cli.Crypto.Base32.{encode_crockford_base32}

pub data Error : Type 0 where
  salt_too_short expand_failed rng_failed : Error

abbrev pub salt_len : ℕ
salt_len = 16

abbrev pub aes_key_len : ℕ
aes_key_len = 32

-- `CONFIRMATION_CODE_BYTES` of base32.rs
abbrev pub confirmation_code_bytes : ℕ
confirmation_code_bytes = 5

abbrev pub label_signals : List ℕ
label_signals = codes "ptransfer:nostr-session:v4:signals"

abbrev pub label_content : List ℕ
label_content = codes "ptransfer:nostr-session:v4:content"

abbrev pub label_claim : List ℕ
label_claim = codes "ptransfer:nostr-session:v4:claim"

abbrev pub label_confirm : List ℕ
label_confirm = codes "ptransfer:nostr-session:v4:confirm"

abbrev pub label_confirmation : List ℕ
label_confirmation = codes "ptransfer:nostr-session:v4:confirmation"

abbrev pub label_tor_claim : List ℕ
label_tor_claim = codes "ptransfer:tor-session:v1:claim"

abbrev pub label_tor_confirm : List ℕ
label_tor_confirm = codes "ptransfer:tor-session:v1:confirm"

abbrev pub label_tor_content : List ℕ
label_tor_content = codes "ptransfer:tor-session:v1:content"

pub record NostrSessionKeys : Type 0 where
  pub signals : List ℕ
  pub content : List ℕ

pub record HandshakeSealKeys : Type 0 where
  pub claim : List ℕ
  pub confirm : List ℕ

pub record ConfirmationCodeBinding : Type 0 where
  pub transfer_id : List ℕ
  pub sender_nonce : List ℕ
  pub receiver_nonce : List ℕ
  pub transcript_hash : List ℕ
  pub metadata_hash : List ℕ

pub record TorSessionKeys : Type 0 where
  pub claim : List ℕ
  pub confirm : List ℕ
  pub content : List ℕ

-- `format!("{LABEL_CONFIRMATION}|{}|{}|{}|{}|{}", …)`
abbrev pub confirmation_info : ConfirmationCodeBinding → List ℕ
confirmation_info b =
    label_confirmation
    ++ (b'|' ∷ b.transfer_id
        ++ (b'|' ∷ b.sender_nonce
            ++ (b'|' ∷ b.receiver_nonce ++ (b'|' ∷ b.transcript_hash ++ (b'|' ∷ b.metadata_hash)))))

-- The key material of a `PakeRoot` is its 32 bytes.
module _ (expand : List ℕ → List ℕ → List ℕ → ℕ → Option (List ℕ)) where
  -- `PakeRoot::hkdf`, which refuses a short salt.
  abbrev pub check_salt : List ℕ → Result Error (Unit {0})
  check_salt salt = ensure (not (ltb (length salt) salt_len)) salt_too_short

  abbrev pub expand_key : List ℕ → List ℕ → List ℕ → Result Error (List ℕ)
  expand_key salt root info = or_err (expand salt root info aes_key_len) expand_failed

  unfoldable pub session_keys : List ℕ → List ℕ → Result Error NostrSessionKeys
  session_keys root salt = do
    check_salt salt
    signals ← expand_key salt root label_signals
    content ← expand_key salt root label_content
    ok record { signals = signals; content = content }

  unfoldable pub handshake_seal_keys : List ℕ → List ℕ → Result Error HandshakeSealKeys
  handshake_seal_keys root salt = do
    check_salt salt
    claim ← expand_key salt root label_claim
    confirm ← expand_key salt root label_confirm
    ok record { claim = claim; confirm = confirm }

  unfoldable pub confirmation_code :
      List ℕ → List ℕ → ConfirmationCodeBinding → Result Error (List ℕ)
  confirmation_code root salt binding = do
    check_salt salt
    bytes ←
        or_err (expand salt root (confirmation_info binding) confirmation_code_bytes) expand_failed
    ok (encode_crockford_base32 bytes)

  unfoldable pub tor_session_keys : List ℕ → List ℕ → Result Error TorSessionKeys
  tor_session_keys root salt = do
    check_salt salt
    claim ← expand_key salt root label_tor_claim
    confirm ← expand_key salt root label_tor_confirm
    content ← expand_key salt root label_tor_content
    ok record { claim = claim; confirm = confirm; content = content }
