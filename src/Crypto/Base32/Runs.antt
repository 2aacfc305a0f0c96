-- ===== src/Crypto/Base32/Runs.antt =====
-- The vectors of the tests of base32.rs, and the theorems on one.
use ptransfer_cli.Common.{ℕ, ◌*◌, ◌^◌, ◌≡◌, refl, List, [], ◌∷◌, length, arith}
use ptransfer_cli.Common.Bytes.{codes}
use ptransfer_cli.Crypto.Base32.{
  encode_crockford_base32, encode_from, write_letters, normalize_crockford_base32, normal_of,
}
use ptransfer_cli.Crypto.Base32.Value.{base32_value, bytes_value, padding, base32_value-encode}

known_vectors :
    (encode_crockford_base32 (0 ∷ []) ≡ codes "00")
    × (encode_crockford_base32 (255 ∷ []) ≡ codes "ZW")
    × (encode_crockford_base32 (0x00 ∷ 0x44 ∷ 0x32 ∷ []) ≡ codes "01234")
unfolding encode_crockford_base32 encode_from write_letters
known_vectors = (refl, refl, refl)

typed_vectors :
    (normalize_crockford_base32 (codes "IiLlOo") ≡ codes "111100")
    × (normalize_crockford_base32 (codes "A4?B*C%9U") ≡ codes "A4BC9")
unfolding normalize_crockford_base32 normal_of
typed_vectors = (refl, refl)

abbrev sample : List ℕ
sample = 0x00 ∷ 0x44 ∷ 0x32 ∷ 0xff ∷ 0x7a ∷ []

base32_value-encode_example :
    base32_value 0 (encode_crockford_base32 sample)
    ≡ bytes_value 0 sample * 2 ^ padding 0 (length sample)
base32_value-encode_example = base32_value-encode sample (omega arith)
