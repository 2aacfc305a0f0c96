-- ===== src/Z85.antt =====
-- src/code/nostr_file/z85.rs: ZeroMQ base85 with partial final blocks.
-- A byte string and a text are lists of numbers below 256.
mod Groups
pub mod RoundTrip
mod Runs
use ptransfer_cli.Common.{
  ℕ, zero, suc, ◌+◌, ◌-◌, ◌*◌, ◌/◌, ◌%◌, ◌^◌, List, [], ◌∷◌, ◌++◌, none, some, Option, ltb, ◌==◌,
  if◌then◌else◌, length, get_or, get_elem?, set, take, replicate, chunks, Result, ok, err, ◌>>=◌,
  ◌>>◌, ensure, not,
}
use ptransfer_cli.Common.Bytes.{codes, be32}

pub data Error : Type 0 where
  impossible_length bad_character out_of_range : Error

abbrev pub alphabet : List ℕ
alphabet =
    codes "0123456789abcdefghijklmnopqrstuvwxyzABCDEFGHIJKLMNOPQRSTUVWXYZ.-:+=^!/*?&<>()[]{}@%$#"

-- `NO_VALUE`, which is `u8::MAX`
abbrev pub no_value : ℕ
no_value = 255

-- The loop that fills `VALUES`, from `index` on.
fill_values : ℕ → List ℕ → List ℕ → List ℕ
fill_values index [] table = table
fill_values index (c ∷ cs) table = fill_values (index + 1) cs (set table c index)

values : List ℕ
unfolding fill_values
values = fill_values 0 alphabet (replicate 256 no_value)

-- `for index in 0..4`: `rounds` are left, and the next byte is at `index`.
unfoldable pub group_word : List ℕ → ℕ → ℕ → ℕ → ℕ
group_word group zero index value = value
group_word group (suc rounds) index value =
    group_word group rounds (index + 1) ((value * 256 % 2 ^ 32 + get_or group index 0) % 2 ^ 32)

-- `digits.iter_mut().rev()`: the last digit is written first.
unfoldable pub write_digits : ℕ → ℕ → List ℕ → List ℕ
write_digits zero value out = out
write_digits (suc rounds) value out =
    write_digits rounds (value / 85) (get_or alphabet (value % 85) 0 ∷ out)

unfoldable pub encode_group : List ℕ → List ℕ
encode_group group =
    take (if length group == 4 then 5 else length group + 1)
      (write_digits 5 (group_word group 4 0 0) [])

unfoldable pub encode_groups : List (List ℕ) → List ℕ
encode_groups [] = []
encode_groups (group ∷ groups) = encode_group group ++ encode_groups groups

unfoldable pub encode : List ℕ → List ℕ
encode bytes = encode_groups (chunks 4 bytes)

unfoldable pub digit_value : ℕ → Result Error ℕ
unfolding values
digit_value character =
    let value = get_or values character no_value in
    if value == no_value then err bad_character else ok value

-- A position past a short group reads as the largest digit.
unfoldable pub group_digit : Option ℕ → Result Error ℕ
group_digit none = ok 84
group_digit (some character) = digit_value character

unfoldable pub read_digits : List ℕ → ℕ → ℕ → ℕ → Result Error ℕ
read_digits group zero index value = ok value
read_digits group (suc rounds) index value = do
  digit ← group_digit (get_elem? group index)
  read_digits group rounds (index + 1) (value * 85 + digit)

unfoldable pub decode_group : List ℕ → Result Error (List ℕ)
decode_group group = do
  value ← read_digits group 5 0 0
  ensure (not (ltb (2 ^ 32 - 1) value)) out_of_range
  ok (take (if length group == 5 then 4 else length group - 1) (be32 value))

unfoldable pub decode_groups : List (List ℕ) → Result Error (List ℕ)
decode_groups [] = ok []
decode_groups (group ∷ groups) = do
  bytes ← decode_group group
  rest ← decode_groups groups
  ok (bytes ++ rest)

unfoldable pub decode : List ℕ → Result Error (List ℕ)
decode text = if length text % 5 == 1 then err impossible_length else decode_groups (chunks 5 text)
