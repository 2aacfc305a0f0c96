-- ===== src/Crypto/Pin.antt =====
-- src/crypto/pin.rs: the short PIN and its wall-clock buckets. The hint of a PIN is an HKDF output,
-- which is a library's, and is left out.
mod Checksum
pub mod Typos
pub mod Generate
pub mod Buckets
mod Runs
use ptransfer_cli.Common.{
  ℕ, zero, suc, ◌+◌, ◌-◌, ◌*◌, ◌/◌, ◌%◌, ◌^◌, List, [], ◌∷◌, ◌++◌, Option, none, some, Bool, true,
  false, ◌&&◌, ◌||◌, ltb, leb, ◌==◌, if◌then◌else◌, length, take, drop, get_or, all, and_then,
  Result, ok, err,
}
use ptransfer_cli.Common.Bytes.{codes}

abbrev pub pin_length : ℕ
pin_length = 12

abbrev pub anonymous_pin_length : ℕ
anonymous_pin_length = 16

abbrev pub pin_checksum_length : ℕ
pin_checksum_length = 1

abbrev pub pin_locator_length : ℕ
pin_locator_length = 3

abbrev pub pin_charset : List ℕ
pin_charset = codes "ABCDEFGHJKLMNPQRSTUVWXYZabcdefghjkmnpqrstuvwxyz23456789"

abbrev pub pin_rotation_ms : ℕ
pin_rotation_ms = 120_000

abbrev pub pin_ttl_ms : ℕ
pin_ttl_ms = pin_rotation_ms * 2

pub data PinKind : Type 0 where
  standard anonymous : PinKind

abbrev pub length_of : PinKind → ℕ
length_of standard = pin_length
length_of anonymous = anonymous_pin_length

-- `iter().position(|c| c == byte)`, from `index` on.
unfoldable pub position_from : ℕ → List ℕ → ℕ → Option ℕ
position_from index [] byte = none
position_from index (c ∷ cs) byte =
    let later = position_from (index + 1) cs byte in if c == byte then some index else later

unfoldable pub position : ℕ → Option ℕ
unfolding position_from
position byte = position_from 0 pin_charset byte

-- The loop over the characters from index `i` on: the weighted sum, or `none` at a character
-- outside the alphabet.
unfoldable pub weighted_sum : ℕ → ℕ → List ℕ → Option ℕ
weighted_sum i sum [] = some sum
weighted_sum i sum (byte ∷ bytes) =
    and_then (position byte) (λ index. weighted_sum (i + 1) (sum + index * (i + 1)) bytes)

abbrev pub checksum_char : Option ℕ → ℕ
checksum_char none = get_or pin_charset 0 0
checksum_char (some sum) = get_or pin_charset (sum % length pin_charset) 0

unfoldable pub compute_checksum : List ℕ → ℕ
compute_checksum bytes = checksum_char (weighted_sum 0 0 bytes)

abbrev pub is_known : Option ℕ → Bool
is_known none = false
is_known (some index) = true

-- `PIN_CHARSET.contains`
abbrev pub in_charset : ℕ → Bool
in_charset byte = is_known (position byte)

-- `PinKind::ALL.into_iter().find(…)`
abbrev pub kind_of_length : ℕ → Option PinKind
kind_of_length n =
    if n == pin_length
    then some standard
    else if n == anonymous_pin_length
    then some anonymous
    else none

unfoldable pub check_pin : List ℕ → Option PinKind → Option PinKind
check_pin pin none = none
check_pin pin (some kind) =
    let at = length pin - pin_checksum_length in
    if all in_charset pin
    then (if compute_checksum (take at pin) == get_or (drop at pin) 0 0 then some kind else none)
    else none

unfoldable pub classify_pin : List ℕ → Option PinKind
unfolding check_pin
classify_pin pin = check_pin pin (kind_of_length (length pin))

abbrev pub pin_locator : List ℕ → List ℕ
pin_locator pin = take pin_locator_length pin

-- The loop of `generate_pin` over one buffer: a byte below the largest multiple of the alphabet's
-- size gives a character, up to `data_len` of them.
unfoldable pub draw_from : ℕ → List ℕ → List ℕ → List ℕ
draw_from data_len chars [] = chars
draw_from data_len chars (byte ∷ buf) =
    let charset_len = length pin_charset in
    let max_multiple = 256 / charset_len * charset_len in
    let more = chars ++ get_or pin_charset (byte % charset_len) 0 ∷ [] in
    let drawn = draw_from data_len more buf in
    let skipped = draw_from data_len chars buf in
    if ltb byte max_multiple then (if length more == data_len then more else drawn) else skipped

pub data Error : Type 0 where
  rng_failed : Error
  -- The model's own: the buffers given were used up.
  out_of_draws : Error

-- `while data.len() < data_len`. The list holds what each `fill_random` gives; `none` is a failure.
unfoldable pub draw_all : ℕ → List ℕ → List (Option (List ℕ)) → Result Error (List ℕ)
draw_all data_len chars [] = if ltb (length chars) data_len then err out_of_draws else ok chars
draw_all data_len chars (none ∷ draws) =
    if ltb (length chars) data_len then err rng_failed else ok chars
draw_all data_len chars (some buf ∷ draws) =
    let rest = draw_all data_len (draw_from data_len chars buf) draws in
    if ltb (length chars) data_len then rest else ok chars

abbrev pub with_checksum : Result Error (List ℕ) → Result Error (List ℕ)
with_checksum (err e) = err e
with_checksum (ok chars) = ok (chars ++ compute_checksum chars ∷ [])

unfoldable pub generate_pin : PinKind → List (Option (List ℕ)) → Result Error (List ℕ)
generate_pin kind draws = with_checksum (draw_all (length_of kind - pin_checksum_length) [] draws)

abbrev pub pin_bucket : ℕ → ℕ
pin_bucket now_ms = now_ms / pin_rotation_ms

-- `bucket.checked_add(1) == Some(current)` on `u64`
unfoldable pub is_pin_bucket_active : ℕ → ℕ → Bool
is_pin_bucket_active bucket now_ms =
    let current = pin_bucket now_ms in
    bucket == current || (ltb (bucket + 1) (2 ^ 64) && bucket + 1 == current)

unfoldable pub is_rendezvous_fresh : ℕ → ℕ → Bool
unfolding is_pin_bucket_active
is_rendezvous_fresh created_at_secs now_ms =
    if ltb (created_at_secs * 1000) (2 ^ 64)
    then is_pin_bucket_active (pin_bucket (created_at_secs * 1000)) now_ms
    else false
