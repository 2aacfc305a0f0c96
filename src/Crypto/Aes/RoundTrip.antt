-- ===== src/Crypto/Aes/RoundTrip.antt =====
-- What aes.rs encrypts it decrypts.
use ptransfer_cli.Common.{
  ℕ, ◌≡◌, List, ◌++◌, length, length-append, take-append, drop-append, ok, arith,
}
use ptransfer_cli.Crypto.Aead.{Aead}
use ptransfer_cli.Crypto.Aes.{decrypt_with_aad}

module _ (aead : Aead) where
  open aead use {seal, length-seal, open-seal}

  pub decrypt-encrypt_with_aad :
      (key plaintext aad nonce : List ℕ)
      → length nonce ≡ 12
      → decrypt_with_aad aead key (nonce ++ seal key nonce aad plaintext) aad ≡ ok plaintext
  unfolding decrypt_with_aad
  decrypt-encrypt_with_aad key plaintext aad nonce hn =
      let ct = seal key nonce aad plaintext in
      rw (take-append 12 nonce ct hn, drop-append 12 nonce ct hn, open-seal)
        (ground (arith, length-append nonce ct, length-seal key nonce aad plaintext))
