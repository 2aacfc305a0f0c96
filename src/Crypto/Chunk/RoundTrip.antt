-- ===== src/Crypto/Chunk/RoundTrip.antt =====
-- A chunk of chunk.rs is read back as it was sealed, and nothing shorter than its overhead is read.
use ptransfer_cli.Common.{
  ℕ, ◌+◌, ◌^◌, ◌<◌, ◌≡◌, List, ◌++◌, length, length-append, length-drop, take, drop, take-append,
  drop-append, ok, arith,
}
use ptransfer_cli.Common.Bytes.{be16}
use ptransfer_cli.Crypto.Aead.{Aead, drawn}
use ptransfer_cli.Crypto.Chunk.{
  encrypt_chunk, decrypt_chunk, parse_chunk_message, overhead_per_chunk,
}

module _ (aead : Aead) where
  open aead use {seal, length-seal, open-seal, length-open}

  -- A sealed chunk splits into its index and the rest, which opens under that index.
  pub parse-encrypt_chunk :
      (key plaintext : List ℕ) (index : ℕ) (nonce message : List ℕ)
      → index < 2 ^ 16
      → length nonce ≡ 12
      → encrypt_chunk aead key plaintext index (drawn nonce) ≡ ok message
      → (length message ≡ length plaintext + overhead_per_chunk)
        × (parse_chunk_message message ≡ ok (index, nonce ++ seal key nonce (be16 index) plaintext))
  unfolding encrypt_chunk parse_chunk_message
  parse-encrypt_chunk key plaintext index nonce message hi hn e = ground (
    arith,
    length-append nonce (seal key nonce (be16 index) plaintext),
    length-seal key nonce (be16 index) plaintext,
  )

  pub decrypt-encrypt_chunk :
      (key plaintext : List ℕ) (index : ℕ) (nonce : List ℕ)
      → length nonce ≡ 12
      → decrypt_chunk aead key (nonce ++ seal key nonce (be16 index) plaintext) index ≡ ok plaintext
  unfolding decrypt_chunk
  decrypt-encrypt_chunk key plaintext index nonce hn =
      let ct = seal key nonce (be16 index) plaintext in
      rw (take-append 12 nonce ct hn, drop-append 12 nonce ct hn, open-seal)
        (ground (arith, length-append nonce ct, length-seal key nonce (be16 index) plaintext))

  -- What opens is as long as the sealed bytes less nonce and tag.
  pub length-decrypt_chunk :
      (key encrypted plaintext : List ℕ) (index : ℕ)
      → decrypt_chunk aead key encrypted index ≡ ok plaintext
      → length encrypted ≡ length plaintext + 28
  unfolding decrypt_chunk
  length-decrypt_chunk key encrypted plaintext index e = ground (
    arith,
    length-drop 12 encrypted,
    length-open key (take 12 encrypted) (be16 index) (drop 12 encrypted) plaintext,
  )
