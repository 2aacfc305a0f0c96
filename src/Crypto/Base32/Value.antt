-- ===== src/Crypto/Base32/Value.antt =====
-- A code as a number in base 32, against the bytes as a number in base 256.
use ptransfer_cli.Common.{
  ℕ, zero, suc, ◌+◌, ◌-◌, ◌*◌, ◌/◌, ◌%◌, ◌^◌, ◌<◌, ◌≡◌, refl, ap, ◌∙◌, List, [], ◌∷◌, ◌++◌, true,
  if◌then◌else◌, ◌==◌, ==_iff, length, get_or, All, all, all-append, holds_below, holds_below_lem,
  arith,
}
use ptransfer_cli.Common.Bytes.{IsByte}
use ptransfer_cli.Crypto.Base32.{
  letter, write_letters, encode_from, encode_crockford_base32, normalize_crockford_base32,
  crockford_alphabet,
}
use ptransfer_cli.Crypto.Base32.Normal.{is_letter, is_letter-letter, normalize-letters}

-- The place of a character in the alphabet.
unfoldable pub place : List ℕ → ℕ → ℕ
place [] c = 0
place (d ∷ ds) c = if d == c then 0 else place ds c + 1

-- A text read as a number in base 32, and bytes in base 256, behind the digits read so far.
abbrev pub base32_value : ℕ → List ℕ → ℕ
base32_value acc [] = acc
base32_value acc (c ∷ cs) = base32_value (acc * 32 + place crockford_alphabet c) cs

abbrev pub bytes_value : ℕ → List ℕ → ℕ
bytes_value acc [] = acc
bytes_value acc (b ∷ bs) = bytes_value (acc * 256 + b) bs

-- The zeros that fill the last letter, after `n` bytes and `bits` bits.
abbrev pub padding : ℕ → ℕ → ℕ
padding bits n = (5 - (bits + 8 * n) % 5) % 5

place-letter : (v : ℕ) → place crockford_alphabet (letter v) ≡ v % 32
place-letter v = (==_iff _ _).0 (
    holds_below_lem (λ i. place crockford_alphabet (get_or crockford_alphabet i 0) == i) 32 (v % 32)
      (omega arith) table)
  where
    table :
        holds_below (λ i. place crockford_alphabet (get_or crockford_alphabet i 0) == i) 32 ≡ true
    table = unfold holds_below place in refl

base32_value-append :
    (acc : ℕ) (xs ys : List ℕ) → base32_value acc (xs ++ ys) ≡ base32_value (base32_value acc xs) ys
base32_value-append acc [] ys = refl
base32_value-append acc (x ∷ xs) ys =
    base32_value-append (acc * 32 + place crockford_alphabet x) xs ys

-- `acc` holds the bits written, and the low `bits` bits of `buffer` those to come, of a number `n`.
abbrev Holds : ℕ → ℕ → ℕ → ℕ → Type 0
Holds acc buffer bits n = acc * 2 ^ bits + buffer % 2 ^ bits ≡ n

abbrev IsWritten : ℕ → ℕ → ℕ → ℕ → List ℕ × ℕ → Type 0
IsWritten bits acc buffer n (out, left) =
    (left < 5)
    × (length out * 5 + left ≡ bits + 8)
    × (all is_letter out ≡ true)
    × Holds (base32_value acc out) buffer left n

one_letter : (v acc : ℕ) → base32_value acc (letter v ∷ []) ≡ acc * 32 + v % 32
one_letter v acc = omega (arith, place-letter v)

two_letters :
    (v w acc : ℕ) → base32_value acc (letter v ∷ letter w ∷ []) ≡ (acc * 32 + v % 32) * 32 + w % 32
two_letters v w acc = omega (arith, place-letter v, place-letter w)

write_step :
    (bits acc buffer n byte : ℕ)
    → bits < 5
    → byte < 256
    → Holds acc buffer bits n
    → let buffer' = buffer * 256 % 2 ^ 32 + byte in
      IsWritten bits acc buffer' (n * 256 + byte) (write_letters 2 buffer' (bits + 8))
unfolding write_letters
write_step zero acc buffer n byte h hb e =
    let b = buffer * 256 % 2 ^ 32 + byte in
    (
      omega arith,
      omega arith,
      ground (arith, is_letter-letter (b / 8)),
      omega (arith, one_letter (b / 8) acc, e),
    )
write_step (suc zero) acc buffer n byte h hb e =
    let b = buffer * 256 % 2 ^ 32 + byte in
    (
      omega arith,
      omega arith,
      ground (arith, is_letter-letter (b / 16)),
      omega (arith, one_letter (b / 16) acc, e),
    )
write_step (suc (suc zero)) acc buffer n byte h hb e =
    let b = buffer * 256 % 2 ^ 32 + byte in
    (
      omega arith,
      omega arith,
      ground (arith, is_letter-letter (b / 2 ^ 5), is_letter-letter (b / 2 ^ 0)),
      omega (arith, two_letters (b / 2 ^ 5) (b / 2 ^ 0) acc, e),
    )
write_step (suc (suc (suc zero))) acc buffer n byte h hb e =
    let b = buffer * 256 % 2 ^ 32 + byte in
    (
      omega arith,
      omega arith,
      ground (arith, is_letter-letter (b / 2 ^ 6), is_letter-letter (b / 2 ^ 1)),
      omega (arith, two_letters (b / 2 ^ 6) (b / 2 ^ 1) acc, e),
    )
write_step (suc (suc (suc (suc zero)))) acc buffer n byte h hb e =
    let b = buffer * 256 % 2 ^ 32 + byte in
    (
      omega arith,
      omega arith,
      ground (arith, is_letter-letter (b / 2 ^ 7), is_letter-letter (b / 2 ^ 2)),
      omega (arith, two_letters (b / 2 ^ 7) (b / 2 ^ 2) acc, e),
    )
write_step (suc (suc (suc (suc (suc bits))))) acc buffer n byte h hb e = absurd (omega arith)

-- The end: what is held is written with zeros behind it.
write_end :
    (bits acc buffer n : ℕ)
    → bits < 5
    → Holds acc buffer bits n
    → (all is_letter (encode_from buffer bits []) ≡ true)
      × (base32_value acc (encode_from buffer bits []) ≡ n * 2 ^ padding bits 0)
unfolding encode_from
write_end zero acc buffer n h e = (refl, omega (arith, e))
write_end (suc zero) acc buffer n h e =
    let v = buffer * 2 ^ 4 % 2 ^ 32 in
    (ground (arith, is_letter-letter v), omega (arith, one_letter v acc, e))
write_end (suc (suc zero)) acc buffer n h e =
    let v = buffer * 2 ^ 3 % 2 ^ 32 in
    (ground (arith, is_letter-letter v), omega (arith, one_letter v acc, e))
write_end (suc (suc (suc zero))) acc buffer n h e =
    let v = buffer * 2 ^ 2 % 2 ^ 32 in
    (ground (arith, is_letter-letter v), omega (arith, one_letter v acc, e))
write_end (suc (suc (suc (suc zero)))) acc buffer n h e =
    let v = buffer * 2 ^ 1 % 2 ^ 32 in
    (ground (arith, is_letter-letter v), omega (arith, one_letter v acc, e))
write_end (suc (suc (suc (suc (suc bits))))) acc buffer n h e = absurd (omega arith)

padding_step : (bits left k n : ℕ) → k * 5 + left ≡ bits + 8 → padding left n ≡ padding bits (suc n)
padding_step bits left k n e = omega arith

encode_from-value :
    (bits acc buffer n : ℕ) (bytes : List ℕ)
    → bits < 5
    → All IsByte bytes
    → Holds acc buffer bits n
    → (all is_letter (encode_from buffer bits bytes) ≡ true)
      × (base32_value acc (encode_from buffer bits bytes)
          ≡ bytes_value n bytes * 2 ^ padding bits (length bytes))
unfolding encode_from
encode_from-value bits acc buffer n [] h bs e = write_end bits acc buffer n h e
encode_from-value bits acc buffer n (byte ∷ bytes) h (hb, bs) e =
    let buffer' = buffer * 256 % 2 ^ 32 + byte in
    let (out, left) = write_letters 2 buffer' (bits + 8) in
    let (small, count, letters, holds) = write_step bits acc buffer n byte h hb e in
    let (known, value) =
      encode_from-value left (base32_value acc out) buffer' (n * 256 + byte) bytes small bs holds in
    (
      ground (arith, all-append is_letter out (encode_from buffer' left bytes), letters, known),
      base32_value-append acc out (encode_from buffer' left bytes)
          ∙ value
          ∙ ap (λ k. bytes_value (n * 256 + byte) bytes * 2 ^ k)
              (padding_step bits left (length out) (length bytes) count),
    )

-- A confirmation code, read as a number in base 32, is the number that its bytes write, followed by
-- the zeros that fill the last letter.
pub base32_value-encode :
    (bytes : List ℕ)
    → All IsByte bytes
    → base32_value 0 (encode_crockford_base32 bytes)
      ≡ bytes_value 0 bytes * 2 ^ padding 0 (length bytes)
unfolding encode_crockford_base32
base32_value-encode bytes bs = (encode_from-value 0 0 0 0 bytes (omega arith) bs (omega arith)).1

-- A confirmation code is the same code after it is normalized.
pub normalize-encode :
    (bytes : List ℕ)
    → All IsByte bytes
    → normalize_crockford_base32 (encode_crockford_base32 bytes) ≡ encode_crockford_base32 bytes
normalize-encode bytes bs = normalize-letters (encode_crockford_base32 bytes) (
    unfold encode_crockford_base32 in
    (encode_from-value 0 0 0 0 bytes (omega arith) bs (omega arith)).0)
