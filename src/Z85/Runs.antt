-- ===== src/Z85/Runs.antt =====
-- Runs of z85.rs on concrete data, the vectors of its own tests among them, and the theorems there.
use ptransfer_cli.Common.{ℕ, ◌≡◌, refl, List, [], ◌∷◌, chunks, ok, err, arith}
use ptransfer_cli.Common.Bytes.{codes}
use ptransfer_cli.Z85.{
  bad_character, impossible_length, out_of_range, encode, encode_groups, encode_group, group_word,
  write_digits, decode, decode_groups, decode_group, read_digits, group_digit, digit_value,
}
use ptransfer_cli.Z85.RoundTrip.{decode-encode}

abbrev vector : List ℕ
vector = 0x86 ∷ 0x4f ∷ 0xd2 ∷ 0x6f ∷ 0xb5 ∷ 0x59 ∷ 0xf7 ∷ 0x5b ∷ []

encode-vector : encode vector ≡ codes "HelloWorld"
unfolding encode encode_groups encode_group group_word write_digits chunks
encode-vector = refl

decode-vector : decode (codes "HelloWorld") ≡ ok vector
unfolding decode decode_groups decode_group read_digits group_digit digit_value chunks
decode-vector = refl

decode_refusals :
    (decode (codes "HelloWorld1") ≡ err impossible_length)
    × (decode (codes "Hello`orld") ≡ err bad_character)
    × (decode (codes "#####") ≡ err out_of_range)
unfolding decode decode_groups decode_group read_digits group_digit digit_value chunks
decode_refusals = (refl, refl, refl)

decode-encode_example :
    decode (encode (1 ∷ 2 ∷ 3 ∷ 4 ∷ 5 ∷ 6 ∷ [])) ≡ ok (1 ∷ 2 ∷ 3 ∷ 4 ∷ 5 ∷ 6 ∷ [])
decode-encode_example = decode-encode (1 ∷ 2 ∷ 3 ∷ 4 ∷ 5 ∷ 6 ∷ []) (omega arith)
