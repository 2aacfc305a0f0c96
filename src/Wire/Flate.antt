-- ===== src/Wire/Flate.antt =====
-- What wire.rs uses of the `flate2` crate's `Decompress`, which is outside the repository.
pub mod Toy
use ptransfer_cli.Common.{ℕ, ◌+◌, ◌≤◌, ◌≡◌, List, Bool, Option, some, length}

-- One call of `decompress_vec` that succeeded: the decoder after it, what it appended to the
-- output, and whether it met the end of the stream.
pub record Step (State : Type 0) : Type 0 where
  pub decoder : State
  pub produced : List ℕ
  pub ended : Bool

-- A decoder reads no more than it is given, fills no more than the room of the output, and its two
-- totals count what it read and produced.
pub record Decoder : Type 1 where
  pub State : Type 0
  pub start : State
  pub total_in : State → ℕ
  pub total_out : State → ℕ
  pub start_out : total_out start ≡ 0
  -- the state, the input, the room left in the output, and whether the flush is `Finish`
  pub decompress_vec : State → List ℕ → ℕ → Bool → Option (Step State)
  pub counts_in :
      (s : State) (input : List ℕ) (room : ℕ) (finish : Bool) (r : Step State)
      → decompress_vec s input room finish ≡ some r
      → (total_in s ≤ total_in r.decoder) × (total_in r.decoder ≤ total_in s + length input)
  pub counts_out :
      (s : State) (input : List ℕ) (room : ℕ) (finish : Bool) (r : Step State)
      → decompress_vec s input room finish ≡ some r
      → total_out r.decoder ≡ total_out s + length r.produced
