-- ===== src/Crypto/Aes.antt =====
-- src/crypto/aes.rs: `nonce || ciphertext || tag` under a key and additional data.
pub mod RoundTrip
use ptransfer_cli.Common.{
  ℕ, ◌+◌, List, [], ◌++◌, ltb, length, take, drop, Result, ok, err, ◌>>=◌, ◌>>◌, ensure, or_err,
  not,
}
use ptransfer_cli.Crypto.Aead.{Aead, Nonce, rng_failure, drawn}

pub data Error : Type 0 where
  rng_failed too_short open_failed : Error

abbrev pub nonce_len : ℕ
nonce_len = 12

abbrev pub tag_len : ℕ
tag_len = 16

module _ (aead : Aead) where
  open aead use {seal, open_sealed}

  unfoldable pub encrypt_with_aad : List ℕ → List ℕ → List ℕ → Nonce → Result Error (List ℕ)
  encrypt_with_aad key plaintext aad rng_failure = err rng_failed
  encrypt_with_aad key plaintext aad (drawn nonce) = ok (nonce ++ seal key nonce aad plaintext)

  unfoldable pub encrypt : List ℕ → List ℕ → Nonce → Result Error (List ℕ)
  unfolding encrypt_with_aad
  encrypt key plaintext nonce = encrypt_with_aad key plaintext [] nonce

  unfoldable pub decrypt_with_aad : List ℕ → List ℕ → List ℕ → Result Error (List ℕ)
  decrypt_with_aad key encrypted aad = do
    ensure (not (ltb (length encrypted) (nonce_len + tag_len))) too_short
    let nonce = take nonce_len encrypted
    let ciphertext = drop nonce_len encrypted
    or_err (open_sealed key nonce aad ciphertext) open_failed

  unfoldable pub decrypt : List ℕ → List ℕ → Result Error (List ℕ)
  unfolding decrypt_with_aad
  decrypt key encrypted = decrypt_with_aad key encrypted []
