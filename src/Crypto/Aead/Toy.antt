-- ===== src/Crypto/Aead/Toy.antt =====
-- A cipher that meets the assumptions on `aes_gcm`: the tag is a checksum of key, nonce and
-- additional data, in front of the plain message.
use ptransfer_cli.Common.{
  ℕ, ◌+◌, ◌%◌, ◌≡◌, ap, Option, none, some, List, [], ◌∷◌, ◌++◌, length, length-take, length-drop,
  take, drop, replicate, Bool-cases, inl, inr, if◌then◌else◌, arith, All, All-append,
}
use ptransfer_cli.Common.Bytes.{IsByte, bytes_eq, bytes_eq_refl, bytes_eq→eq}
use ptransfer_cli.Crypto.Aead.{Aead}

abbrev pub sum : List ℕ → ℕ
sum [] = 0
sum (x ∷ xs) = x + sum xs

abbrev pub tag : List ℕ → List ℕ → List ℕ → List ℕ
tag key nonce aad = replicate 16 ((sum key + sum nonce + sum aad) % 256)

abbrev pub toy_seal : List ℕ → List ℕ → List ℕ → List ℕ → List ℕ
toy_seal key nonce aad msg = tag key nonce aad ++ msg

abbrev pub toy_open : List ℕ → List ℕ → List ℕ → List ℕ → Option (List ℕ)
toy_open key nonce aad ct =
    if bytes_eq (take 16 ct) (tag key nonce aad) then some (drop 16 ct) else none

pub toy_length-seal :
    (key nonce aad msg : List ℕ) → length (toy_seal key nonce aad msg) ≡ length msg + 16
toy_length-seal key nonce aad msg = omega arith

pub toy_open-seal :
    (key nonce aad msg : List ℕ) → toy_open key nonce aad (toy_seal key nonce aad msg) ≡ some msg
toy_open-seal key nonce aad msg = rw (bytes_eq_refl (tag key nonce aad))

pub toy_seal-IsByte :
    (key nonce aad msg : List ℕ) → All IsByte msg → All IsByte (toy_seal key nonce aad msg)
toy_seal-IsByte key nonce aad msg h = All-append IsByte (tag key nonce aad) msg (omega arith) h

pub toy_length-open :
    (key nonce aad ct msg : List ℕ)
    → toy_open key nonce aad ct ≡ some msg
    → length ct ≡ length msg + 16
toy_length-open key nonce aad ct msg h =
    elim (Bool-cases (bytes_eq (take 16 ct) (tag key nonce aad))) [
      | inl e ↦
          let whole = ap length (bytes_eq→eq (take 16 ct) (tag key nonce aad) e) in
          let rest : drop 16 ct ≡ msg = ground (arith, e, h) in
          omega (arith, whole, length-take 16 ct, length-drop 16 ct, ap length rest)
      | inr e ↦ absurd (ground (arith, e, h))
    ]

abbrev pub toy_aead : Aead
toy_aead = record {
  seal = toy_seal;
  open_sealed = toy_open;
  length-seal = toy_length-seal;
  open-seal = toy_open-seal;
  seal-IsByte = toy_seal-IsByte;
  length-open = toy_length-open;
}
