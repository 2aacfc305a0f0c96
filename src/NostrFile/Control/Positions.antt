-- ===== src/NostrFile/Control/Positions.antt =====
-- The characters of a placement map.
use ptransfer_cli.Common.{
  ℕ, ◌<◌, ◌≡◌, refl, Bool, true, false, none, some, ◌==◌, holds_below, holds_below_lem, Result, ok,
  err, arith,
}
use ptransfer_cli.NostrFile.Control.{Error, encode_position, decode_position, position_from}

-- Whether a position is written as a character that reads as it.
reads_as : Result Error ℕ → ℕ → Bool
reads_as (err e) position = false
reads_as (ok character) position = elim (decode_position character) [
  | none ↦ false
  | some p ↦ p == position
]

reads_as-parts :
    (r : Result Error ℕ) (position : ℕ)
    → reads_as r position ≡ true
    → (character : ℕ) × (r ≡ ok character) × (decode_position character ≡ some position)
unfolding reads_as
reads_as-parts (err e) position h = cc
reads_as-parts (ok character) position h = (character, refl, ground arith)

-- Each of the 64 positions of a map is written as a character, and that character reads as the
-- position.
pub decode_position-encode_position :
    (position : ℕ)
    → position < 64
    → (character : ℕ) × (encode_position position ≡ ok character)
      × (decode_position character ≡ some position)
decode_position-encode_position position h =
    reads_as-parts (encode_position position) position
      (holds_below_lem (λ p. reads_as (encode_position p) p) 64 position h table)
  where
    table : holds_below (λ p. reads_as (encode_position p) p) 64 ≡ true
    table = unfold holds_below reads_as encode_position decode_position position_from in refl
