-- ===== src/Wire.antt =====
-- src/wire.rs: how payload bytes travel, and the receiver's inflater with its cap.
pub mod Flate
pub mod Bounds
pub mod Whole
mod Runs
use ptransfer_cli.Common.{
  ℕ, zero, suc, ◌+◌, ◌-◌, ◌*◌, ◌<◌, List, [], ◌++◌, Bool, true, false, not, ◌&&◌, Option, none,
  some, ltb, ◌==◌, if◌then◌else◌, length, drop, Result, ok, err, ◌>>=◌, ◌>>◌, ensure,
}
use Flate.{Decoder, Step}

pub data WireEncoding : Type 0 where
  deflate_raw identity : WireEncoding

-- A text is its bytes.
pub record TransferMetadata : Type 0 where
  pub content_type : List ℕ
  pub file_name : List ℕ
  pub file_size : ℕ
  pub content_encoding : WireEncoding
  pub mime_type : List ℕ

pub data Error : Type 0 where
  decoder_failed too_large trailing_data truncated_stream : Error
  -- The model's own: the loop of `run` used up its rounds.
  out_of_rounds : Error

abbrev pub inflate_buf_step : ℕ
inflate_buf_step = 128 * 1024

-- `capacity` is that of the vector `out`.
module _ (d : Decoder) where
  open d use {State, start, total_in, total_out, decompress_vec}

  pub record Inflater : Type 0 where
    pub decoder : State
    pub out : List ℕ
    pub capacity : ℕ
    pub max_output : ℕ
    pub stream_ended : Bool

  unfoldable pub new : ℕ → Inflater
  new max_output = record {
    decoder = start;
    out = [];
    capacity = inflate_buf_step;
    max_output = max_output;
    stream_ended = false;
  }

  -- The room after `reserve`, which is called where the vector is full.
  abbrev pub room : Inflater → ℕ
  room i = if length i.out == i.capacity then inflate_buf_step else i.capacity - length i.out

  -- What one call of the decoder leaves to do: stop with an error, stop, or go round again on
  -- the input that is left.
  pub data Round : Type 0 where
    fail : Error → Round
    finished : Inflater → Round
    again : Inflater → List ℕ → Round

  unfoldable pub after_step : Inflater → List ℕ → Step State → Round
  after_step i input r =
      let read = total_in r.decoder - total_in i.decoder in
      let produced = total_out r.decoder - total_out i.decoder in
      let i' : Inflater = record i {
        decoder = r.decoder;
        out = i.out ++ r.produced;
        capacity = length i.out + room i;
      } in
      if ltb i.max_output (total_out r.decoder)
      then fail too_large
      else if r.ended
      then (if ltb read (length input)
          then fail trailing_data
          else finished (record i' { stream_ended = true }))
      else if read == 0 && produced == 0
      then finished i'
      else again i' (drop read input)

  unfoldable pub run_round : Inflater → List ℕ → Bool → Round
  run_round i input finish = elim (decompress_vec i.decoder input (room i) finish) [
    | none ↦ fail decoder_failed
    | some r ↦ after_step i input r
  ]

  -- `loop { … }`, whose rounds are counted.
  unfoldable pub run_loop : ℕ → Inflater → List ℕ → Bool → Result Error Inflater
  run_loop zero i input finish = err out_of_rounds
  run_loop (suc rounds) i input finish = elim (run_round i input finish) [
    | fail e ↦ err e
    | finished i' ↦ ok i'
    | again i' rest ↦ run_loop rounds i' rest finish
  ]

  -- A round that goes on read a byte or produced one, so this many rounds are enough.
  abbrev pub enough : Inflater → List ℕ → ℕ
  enough i input = length input + (i.max_output - total_out i.decoder) + 2

  unfoldable pub run : Inflater → List ℕ → Bool → Result Error Inflater
  run i input finish =
      let cleared : Inflater = record i { out = [] } in
      run_loop (enough cleared input) cleared input finish

  unfoldable pub push : Inflater → List ℕ → Result Error Inflater
  push i input = run i input false

  unfoldable pub finish : Inflater → Result Error Inflater
  finish i = do i' ← run i [] true; ensure i'.stream_ended truncated_stream; ok i'
