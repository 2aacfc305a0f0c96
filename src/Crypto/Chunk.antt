-- ===== src/Crypto/Chunk.antt =====
-- src/crypto/chunk.rs: one encrypted chunk, `[index(2)][nonce(12)][ciphertext][tag(16)]`.
-- The index is a `u16`, and is the additional data of the seal.
pub mod RoundTrip
use ptransfer_cli.Common.{
  ℕ, ◌+◌, ◌*◌, ◌^◌, List, [], ◌∷◌, ◌++◌, ltb, if◌then◌else◌, length, get_or, take, drop, Result, ok,
  err, ◌>>=◌, ◌>>◌, ensure, or_err, not,
}
use ptransfer_cli.Common.Bytes.{be16}
use ptransfer_cli.Crypto.Aead.{Aead, Nonce, rng_failure, drawn}

pub data Error : Type 0 where
  rng_failed too_short open_failed : Error

abbrev pub encryption_chunk_size : ℕ
encryption_chunk_size = 128 * 1024

abbrev pub nonce_len : ℕ
nonce_len = 12

abbrev pub tag_len : ℕ
tag_len = 16

abbrev pub chunk_index_size : ℕ
chunk_index_size = 2

abbrev pub overhead_per_chunk : ℕ
overhead_per_chunk = chunk_index_size + nonce_len + tag_len

abbrev pub max_message_size : ℕ
max_message_size = 2 * 1024 * 1024 * 1024

module _ (aead : Aead) where
  open aead use {seal, open_sealed}

  unfoldable pub encrypt_chunk : List ℕ → List ℕ → ℕ → Nonce → Result Error (List ℕ)
  encrypt_chunk key plaintext index rng_failure = err rng_failed
  encrypt_chunk key plaintext index (drawn nonce) =
      ok (be16 index ++ (nonce ++ seal key nonce (be16 index) plaintext))

  unfoldable pub decrypt_chunk : List ℕ → List ℕ → ℕ → Result Error (List ℕ)
  decrypt_chunk key encrypted index = do
    ensure (not (ltb (length encrypted) (nonce_len + tag_len))) too_short
    let nonce = take nonce_len encrypted
    let ciphertext = drop nonce_len encrypted
    or_err (open_sealed key nonce (be16 index) ciphertext) open_failed

unfoldable pub parse_chunk_message : List ℕ → Result Error (ℕ × List ℕ)
parse_chunk_message message = do
  ensure (not (ltb (length message) overhead_per_chunk)) too_short
  ok (get_or message 0 0 * 256 + get_or message 1 0, drop chunk_index_size message)
