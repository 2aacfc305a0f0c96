-- ===== src/Crypto/Aead.antt =====
-- What the program uses of the `aes_gcm` crate and of the operating system's random numbers. Both
-- are outside the repository.
pub mod Toy
use ptransfer_cli.Common.{
  ℕ, ◌+◌, ◌≤◌, ◌≡◌, refl, Option, none, some, List, [], ◌∷◌, ◌++◌, length, take, drop, replicate,
  All, Bool, true, false, leb, ◌&&◌, if◌then◌else◌, arith,
}
use ptransfer_cli.Common.Bytes.{IsByte, bytes_eq}

-- AES-256-GCM under one key, nonce and additional data: `seal` appends the 16-byte tag, and `open`
-- returns what was sealed under the same three. `open` may refuse anything else. Sealing fails only
-- for a message of 64 GiB or more, which no caller makes.
pub record Aead : Type 0 where
  pub seal : List ℕ → List ℕ → List ℕ → List ℕ → List ℕ
  pub open_sealed : List ℕ → List ℕ → List ℕ → List ℕ → Option (List ℕ)
  pub length-seal : (key nonce aad msg : List ℕ) → length (seal key nonce aad msg) ≡ length msg + 16
  pub open-seal :
      (key nonce aad msg : List ℕ) → open_sealed key nonce aad (seal key nonce aad msg) ≡ some msg
  pub seal-IsByte :
      (key nonce aad msg : List ℕ) → All IsByte msg → All IsByte (seal key nonce aad msg)
  pub length-open :
      (key nonce aad ct msg : List ℕ)
      → open_sealed key nonce aad ct ≡ some msg
      → length ct ≡ length msg + 16

-- `fill_random`: a nonce of twelve bytes, or the failure of the random source.
pub data Nonce : Type 0 where
  rng_failure : Nonce
  drawn : List ℕ → Nonce

abbrev pub IsDrawn : Nonce → Type 0
IsDrawn rng_failure = ⊥
IsDrawn (drawn bytes) = length bytes ≡ 12
