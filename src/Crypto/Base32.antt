-- ===== src/Crypto/Base32.antt =====
-- src/crypto/base32.rs: confirmation codes in Crockford's Base32. A text is its ASCII bytes. The
-- comparison without an early return is on the bits of the bytes and is left out.
mod Normal
pub mod Value
mod Runs
use ptransfer_cli.Common.{
  ℕ, zero, suc, ◌+◌, ◌-◌, ◌*◌, ◌/◌, ◌%◌, ◌^◌, List, [], ◌∷◌, ◌++◌, Bool, true, false, ◌||◌, ◌&&◌,
  ltb, leb, ◌==◌, if◌then◌else◌, get_or, is_empty,
}
use ptransfer_cli.Common.Bytes.{codes}

abbrev pub crockford_alphabet : List ℕ
crockford_alphabet = codes "0123456789ABCDEFGHJKMNPQRSTVWXYZ"

-- `CROCKFORD_ALPHABET[(value & 0x1f) as usize]`
abbrev pub letter : ℕ → ℕ
letter value = get_or crockford_alphabet (value % 32) 0

-- `while bits >= 5`: at most two letters, since fewer than 13 bits are held. The letters, and the
-- bits that are left.
unfoldable pub write_letters : ℕ → ℕ → ℕ → List ℕ × ℕ
write_letters zero buffer bits = ([], bits)
write_letters (suc rounds) buffer bits =
    let (out, left) = write_letters rounds buffer (bits - 5) in
    if leb 5 bits then (letter (buffer / 2 ^ (bits - 5)) ∷ out, left) else ([], bits)

-- The loop over the bytes and the padding after it. `buffer` is a `u32`.
unfoldable pub encode_from : ℕ → ℕ → List ℕ → List ℕ
encode_from buffer bits [] =
    if ltb 0 bits then letter (buffer * 2 ^ (5 - bits) % 2 ^ 32) ∷ [] else []
encode_from buffer bits (byte ∷ bytes) =
    let buffer' = buffer * 256 % 2 ^ 32 + byte in
    let (out, left) = write_letters 2 buffer' (bits + 8) in out ++ encode_from buffer' left bytes

unfoldable pub encode_crockford_base32 : List ℕ → List ℕ
encode_crockford_base32 bytes = encode_from 0 0 bytes

abbrev pub to_ascii_uppercase : ℕ → ℕ
to_ascii_uppercase byte = if leb b'a' byte && leb byte b'z' then byte - 32 else byte

abbrev pub contains : ℕ → List ℕ → Bool
contains x [] = false
contains x (y ∷ ys) = x == y || contains x ys

abbrev pub is_dropped : ℕ → Bool
is_dropped byte = byte == b' ' || byte == b'-' || byte == 9 || byte == 10

-- The text that a typed byte stands for, after the fold of its case.
unfoldable pub normal_of : ℕ → List ℕ
normal_of byte =
    if is_dropped byte
    then []
    else if byte == b'I' || byte == b'L'
    then b'1' ∷ []
    else if byte == b'O'
    then b'0' ∷ []
    else if contains byte crockford_alphabet
    then byte ∷ []
    else []

unfoldable pub normalize_crockford_base32 : List ℕ → List ℕ
normalize_crockford_base32 [] = []
normalize_crockford_base32 (byte ∷ input) =
    normal_of (to_ascii_uppercase byte) ++ normalize_crockford_base32 input
