-- ===== src/Crypto/Spake2.antt =====
-- src/crypto/spake2.rs: SPAKE2 over P-256. The curve of the `p256` crate is the interface Curve below;
-- SHA-256 and HKDF are parameters. A text is its bytes.
pub mod Transcript
pub mod Agreement
pub mod Toy
use ptransfer_cli.Common.{
  ℕ, zero, suc, ◌+◌, ◌-◌, ◌*◌, ◌/◌, ◌%◌, ◌^◌, ◌≤◌, ◌<◌, ◌≡◌, List, [], ◌∷◌, ◌++◌, Option, none,
  some, Bool, true, false, not, ◌&&◌, ◌==◌, is_some, if◌then◌else◌, length, set, replicate, Result,
  ok, err, ◌>>=◌, ◌>>◌, ensure, or_err, with_err,
}
use ptransfer_cli.Common.Bytes.{codes, bytes_eq}

pub data Error : Type 0 where
  bad_secret rng_failed no_draws_left bad_encoding bad_constant : Error
  bad_length not_on_curve unblinds_to_identity hkdf_failed : Error

abbrev pub pake_message_len : ℕ
pake_message_len = 33

abbrev pub pake_secret_len : ℕ
pake_secret_len = 32

abbrev pub pake_context : List ℕ
pake_context = codes "ptransfer:spake2-p256:v4"

abbrev pub pake_secret_salt : List ℕ
pake_secret_salt = codes "ptransfer:spake2-w:v4"

abbrev pub m_bytes : List ℕ
m_bytes =
    0x02 ∷ 0x88 ∷ 0x6e ∷ 0x2f ∷ 0x97 ∷ 0xac ∷ 0xe4 ∷ 0x6e ∷ 0x55 ∷ 0xba ∷ 0x9d ∷ 0xd7 ∷ 0x24 ∷ 0x25
    ∷ 0x79 ∷ 0xf2 ∷ 0x99 ∷ 0x3b ∷ 0x64 ∷ 0xe1 ∷ 0x6e ∷ 0xf3 ∷ 0xdc ∷ 0xab ∷ 0x95 ∷ 0xaf ∷ 0xd4
    ∷ 0x97 ∷ 0x33 ∷ 0x3d ∷ 0x8f ∷ 0xa1 ∷ 0x2f ∷ []

abbrev pub n_bytes : List ℕ
n_bytes =
    0x03 ∷ 0xd8 ∷ 0xbb ∷ 0xd6 ∷ 0xc6 ∷ 0x39 ∷ 0xc6 ∷ 0x29 ∷ 0x37 ∷ 0xb0 ∷ 0x4d ∷ 0x99 ∷ 0x7f ∷ 0x38
    ∷ 0xc3 ∷ 0x77 ∷ 0x07 ∷ 0x19 ∷ 0xc6 ∷ 0x29 ∷ 0xd7 ∷ 0x01 ∷ 0x4d ∷ 0x49 ∷ 0xa2 ∷ 0x4b ∷ 0x4f
    ∷ 0x98 ∷ 0xba ∷ 0xa1 ∷ 0x29 ∷ 0x2b ∷ 0x49 ∷ []

-- What the program uses of P-256, a group of prime order: points with their compressed encoding, and
-- scalars, none of which is zero, read from 32 bytes.
pub record Curve : Type 1 where
  pub Point : Type 0
  pub Scalar : Type 0
  pub generator : Point
  pub add : Point → Point → Point
  pub sub : Point → Point → Point
  pub mul : Point → Scalar → Point
  pub is_identity : Point → Bool
  pub to_sec1 : Point → List ℕ
  pub from_sec1 : List ℕ → Option Point
  pub to_scalar : List ℕ → Option Scalar
  pub sub-add : (p q : Point) → sub (add p q) q ≡ p
  pub mul-mul : (p : Point) (s t : Scalar) → mul (mul p s) t ≡ mul (mul p t) s
  pub mul-generator : (s : Scalar) → is_identity (mul generator s) ≡ false
  pub mul-point : (p : Point) (s : Scalar) → is_identity p ≡ false → is_identity (mul p s) ≡ false
  pub length-to_sec1 : (p : Point) → is_identity p ≡ false → length (to_sec1 p) ≡ 33
  pub from_sec1-to_sec1 : (p : Point) → length (to_sec1 p) ≡ 33 → from_sec1 (to_sec1 p) ≡ some p

pub data PakeRole : Type 0 where
  sender receiver : PakeRole

pub record PakeIdentities : Type 0 where
  pub transfer_id : List ℕ
  pub sender_pubkey : List ℕ
  pub receiver_pubkey : List ℕ

abbrev pub tor : List ℕ → PakeIdentities
tor onion = record {
  transfer_id = onion;
  sender_pubkey = codes "ptransfer:tor:v1:sender";
  receiver_pubkey = codes "ptransfer:tor:v1:receiver";
}

-- `u64::to_le_bytes`, and the big-endian bytes of a number and the number of bytes.
abbrev pub le_bytes : ℕ → ℕ → List ℕ
le_bytes zero n = []
le_bytes (suc k) n = (n % 256) ∷ le_bytes k (n / 256)

abbrev pub to_be_from : ℕ → ℕ → List ℕ → List ℕ
to_be_from zero n acc = acc
to_be_from (suc k) n acc = to_be_from k (n / 256) ((n % 256) ∷ acc)

abbrev pub from_be_from : ℕ → List ℕ → ℕ
from_be_from acc [] = acc
from_be_from acc (b ∷ bs) = from_be_from (acc * 256 + b) bs

-- `U384::from_be_slice(&wide) % wide_group_order()` over the order of the group, in its low 32 bytes.
module _ (order : ℕ) (expand : List ℕ → List ℕ → List ℕ → ℕ → Option (List ℕ)) where
  unfoldable pub derive_pake_secret : List ℕ → Result Error (List ℕ)
  derive_pake_secret pin = do
    wide ← or_err (expand pake_secret_salt pin (codes "w") 48) hkdf_failed
    let secret = to_be_from pake_secret_len (from_be_from 0 wide % order) []
    ok (
        if bytes_eq secret (replicate pake_secret_len 0)
        then set secret (pake_secret_len - 1) 1
        else secret)

-- A field of the transcript behind its length in eight bytes.
abbrev pub push_framed : List ℕ → List ℕ → List ℕ
push_framed out field = out ++ (le_bytes 8 (length field) ++ field)

abbrev pub absorb : List ℕ → List (List ℕ) → List ℕ
absorb out [] = out
absorb out (field ∷ fields) = absorb (push_framed out field) fields

-- What is hashed: the identities, the two elements, the shared element and the secret.
abbrev pub transcript_fields : PakeIdentities → List ℕ → List ℕ → List ℕ → List ℕ → List (List ℕ)
transcript_fields ids pa pb shared secret =
    (pake_context ++ b'|' ∷ ids.transfer_id)
    ∷ ids.sender_pubkey
    ∷ ids.receiver_pubkey
    ∷ pa
    ∷ pb
    ∷ shared
    ∷ secret
    ∷ []

unfoldable pub transcript : PakeIdentities → List ℕ → List ℕ → List ℕ → List ℕ → List ℕ
transcript ids pa pb shared secret = absorb [] (transcript_fields ids pa pb shared secret)

module _ (curve : Curve) where
  open curve use {
    Point, Scalar, generator, add, sub, mul, is_identity, to_sec1, from_sec1, to_scalar,
  }

  pub record PakeRun : Type 0 where
    pub role : PakeRole
    pub secret : List ℕ
    pub ephemeral : Scalar
    pub message : List ℕ

  -- `decompress`, whose failure would be a panic.
  abbrev pub decompress : List ℕ → Result Error Point
  decompress bytes = or_err (from_sec1 bytes) bad_constant

  abbrev pub own_constant : PakeRole → Result Error Point
  own_constant sender = decompress m_bytes
  own_constant receiver = decompress n_bytes

  abbrev pub peer_constant : PakeRole → Result Error Point
  peer_constant sender = decompress n_bytes
  peer_constant receiver = decompress m_bytes

  abbrev pub read_pake_scalar : List ℕ → Result Error Scalar
  read_pake_scalar secret = or_err (to_scalar secret) bad_secret

  unfoldable pub compress : Point → Result Error (List ℕ)
  compress point = do
    ensure (length (to_sec1 point) == pake_message_len) bad_encoding
    ok (to_sec1 point)

  -- The loop that samples a scalar, over what the random source gives: bytes, or its failure.
  unfoldable pub draw_scalar : List (Option (List ℕ)) → Result Error Scalar
  draw_scalar [] = err no_draws_left
  draw_scalar (none ∷ draws) = err rng_failed
  draw_scalar (some bytes ∷ draws) = elim (to_scalar bytes) [
    | none ↦ draw_scalar draws
    | some scalar ↦ ok scalar
  ]

  unfoldable pub start : PakeRole → List ℕ → List (Option (List ℕ)) → Result Error PakeRun
  start role secret draws = do
    w ← read_pake_scalar secret
    ephemeral ← draw_scalar draws
    constant ← own_constant role
    message ← compress (add (mul generator ephemeral) (mul constant w))
    ok record { role = role; secret = secret; ephemeral = ephemeral; message = message }

  -- The elements in the order of the roles, of the own one and the peer's.
  abbrev pub element_a : PakeRole → List ℕ → List ℕ → List ℕ
  element_a sender own peer = own
  element_a receiver own peer = peer

  abbrev pub element_b : PakeRole → List ℕ → List ℕ → List ℕ
  element_b sender own peer = peer
  element_b receiver own peer = own

  module _ (sha256 : List ℕ → List ℕ) where
    unfoldable pub finish : PakeRun → List ℕ → PakeIdentities → Result Error (List ℕ)
    finish run peer_message identities = do
      w ← read_pake_scalar run.secret
      ensure (length peer_message == pake_message_len) bad_length
      peer ← or_err (from_sec1 peer_message) not_on_curve
      constant ← peer_constant run.role
      let unblinded = sub peer (mul constant w)
      ensure (not (is_identity unblinded)) unblinds_to_identity
      shared ← compress (mul unblinded run.ephemeral)
      ok (
          sha256 (
            transcript identities (element_a run.role run.message peer_message)
              (element_b run.role run.message peer_message) shared run.secret))

  unfoldable pub is_valid_pake_message : List ℕ → Bool
  is_valid_pake_message message = length message == pake_message_len && is_some (from_sec1 message)
