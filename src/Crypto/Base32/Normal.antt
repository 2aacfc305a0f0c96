-- ===== src/Crypto/Base32/Normal.antt =====
-- Codes as they are written, typed and normalized.
use ptransfer_cli.Common.{
  ℕ, ◌%◌, ◌≡◌, refl, ap, List, [], ◌∷◌, Bool, true, get_or, all, holds_below, holds_below_lem,
  arith,
}
use ptransfer_cli.Common.Bytes.{bytes_eq, bytes_eq→eq}
use ptransfer_cli.Crypto.Base32.{
  letter, to_ascii_uppercase, normal_of, normalize_crockford_base32, crockford_alphabet,
}

-- A character that stands for itself.
abbrev pub is_letter : ℕ → Bool
is_letter byte = bytes_eq (normal_of (to_ascii_uppercase byte)) (byte ∷ [])

pub is_letter-letter : (v : ℕ) → is_letter (letter v) ≡ true
is_letter-letter v =
    holds_below_lem (λ i. is_letter (get_or crockford_alphabet i 0)) 32 (v % 32) (omega arith) table
  where
    table : holds_below (λ i. is_letter (get_or crockford_alphabet i 0)) 32 ≡ true
    table = unfold holds_below normal_of in refl

pub normalize-letters :
    (text : List ℕ) → all is_letter text ≡ true → normalize_crockford_base32 text ≡ text
unfolding normalize_crockford_base32
normalize-letters [] h = refl
normalize-letters (c ∷ cs) h =
    let here = bytes_eq→eq (normal_of (to_ascii_uppercase c)) (c ∷ []) (ground (arith, h)) in
    rw here (ap (λ t. c ∷ t) (normalize-letters cs (ground (arith, h))))
