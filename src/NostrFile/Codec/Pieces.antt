-- ===== src/NostrFile/Codec/Pieces.antt =====
-- A sealed piece opens under its own additional data.
use ptransfer_cli.Common.{
  ℕ, ◌+◌, ◌≤◌, ◌≡◌, refl, List, ◌++◌, All, All-append, length, length-append, ok, ltb, Bool, arith,
}
use ptransfer_cli.Common.Bytes.{IsByte}
use ptransfer_cli.Crypto.Aead.{Aead, drawn}
use ptransfer_cli.Crypto.Aes.{encrypt_with_aad}
use ptransfer_cli.Crypto.Aes.RoundTrip.{decrypt-encrypt_with_aad}
use ptransfer_cli.Z85
use ptransfer_cli.Z85.RoundTrip.{encoded_length, length-encode, decode-encode}
use ptransfer_cli.NostrFile.Codec.{encode_chunk_content, decode_chunk_content, encoded_len_bound}

encoded_length-le :
    (n max_size : ℕ) → n ≤ max_size → encoded_length (n + 28) ≤ encoded_len_bound max_size
encoded_length-le n max_size h = ground arith

module _ (aead : Aead) (key : List ℕ) where
  open aead use {seal, length-seal, seal-IsByte}

  -- The text of a piece.
  unfoldable pub content_of : List ℕ → List ℕ → List ℕ → List ℕ
  content_of chunk aad nonce = Z85.encode (nonce ++ seal key nonce aad chunk)

  pub encode_chunk_content-ok :
      (chunk aad nonce : List ℕ)
      → encode_chunk_content aead key chunk aad (drawn nonce) ≡ ok (content_of chunk aad nonce)
  unfolding encode_chunk_content encrypt_with_aad content_of
  encode_chunk_content-ok chunk aad nonce = refl

  sealed_length :
      (chunk aad nonce : List ℕ)
      → length nonce ≡ 12
      → length (nonce ++ seal key nonce aad chunk) ≡ length chunk + 28
  sealed_length chunk aad nonce h =
      omega (arith, length-append nonce (seal key nonce aad chunk), length-seal key nonce aad chunk)

  module _ (chunk aad nonce : List ℕ) (max_size : ℕ) (width : length nonce ≡ 12)
      (nonce_bytes : All IsByte nonce) (chunk_bytes : All IsByte chunk)
      (fits : length chunk ≤ max_size) where
    sealed_bytes : All IsByte (nonce ++ seal key nonce aad chunk)
    sealed_bytes =
        All-append IsByte nonce _ nonce_bytes (seal-IsByte key nonce aad chunk chunk_bytes)

    within : ltb (encoded_len_bound max_size) (length (content_of chunk aad nonce)) ≡ Bool.false
    unfolding content_of
    within = ground (
      arith,
      length-encode _ sealed_bytes,
      sealed_length chunk aad nonce width,
      encoded_length-le (length chunk) max_size fits,
    )

    pub decode_chunk_content-content :
        decode_chunk_content aead key (content_of chunk aad nonce) aad max_size ≡ ok chunk
    unfolding decode_chunk_content
    decode_chunk_content-content =
        rw (within, decodes, decrypt-encrypt_with_aad aead key chunk aad nonce width) (ground arith)
      where
        decodes : Z85.decode (content_of chunk aad nonce) ≡ ok (nonce ++ seal key nonce aad chunk)
        decodes = unfold content_of in decode-encode _ sealed_bytes
