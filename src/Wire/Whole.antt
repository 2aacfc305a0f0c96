-- ===== src/Wire/Whole.antt =====
-- A compressed stream that comes in one piece and fits the output's buffer.
use ptransfer_cli.Common.{
  ℕ, suc, ◌+◌, ◌-◌, ◌≤◌, ◌≡◌, refl, ap, ◌∙◌, List, [], ◌++◌, Bool, true, false, some, length, ok,
  err, ◌>>=◌, ◌>>◌, ensure, arith, none,
}
use ptransfer_cli.Wire.{
  Inflater, new, room, fail, finished, again, after_step, run_round, run_loop, run, push, finish,
  inflate_buf_step, truncated_stream, decoder_failed, enough,
}
use ptransfer_cli.Wire.Flate.{Decoder, Step}

module _ (d : Decoder) where
  open d use {State, start, total_in, total_out, decompress_vec, start_out, counts_out}

  -- The inflater after a call that met the end of the stream.
  abbrev ended_with : Inflater d → Step State → Inflater d
  ended_with i r = record i {
    decoder = r.decoder;
    out = i.out ++ r.produced;
    capacity = length i.out + room d i;
    stream_ended = true;
  }

  after_step_ended :
      (i : Inflater d) (input : List ℕ) (r : Step State)
      → r.ended ≡ true
      → total_out r.decoder ≤ i.max_output
      → total_in i.decoder + length input ≤ total_in r.decoder
      → after_step d i input r ≡ finished (ended_with i r)
  unfolding after_step
  after_step_ended i input r e small whole = ground (arith, e)

  run_loop_finished :
      (rounds : ℕ) (i j : Inflater d) (input : List ℕ) (f : Bool)
      → run_round d i input f ≡ finished j
      → run_loop d (suc rounds) i input f ≡ ok j
  unfolding run_loop
  run_loop_finished rounds i j input f h =
      ap
        (λ r. elim r [
          | fail e ↦ err e
          | finished k ↦ ok k
          | again k rest ↦ run_loop d rounds k rest f
        ])
        h

  run_ended :
      (i : Inflater d) (input : List ℕ) (f : Bool) (r : Step State)
      → decompress_vec i.decoder input (room d (record i { out = [] })) f ≡ some r
      → r.ended ≡ true
      → total_out r.decoder ≤ i.max_output
      → total_in i.decoder + length input ≤ total_in r.decoder
      → run d i input f ≡ ok (ended_with (record i { out = [] }) r)
  unfolding run run_round
  run_ended i input f r called e small whole =
      let cleared : Inflater d = record i { out = [] } in
      let rounds = length input + (i.max_output - total_out i.decoder) + 1 in
      let counted : enough d cleared input ≡ suc rounds = omega arith in
      ap (λ n. run_loop d n cleared input f) counted
      ∙ run_loop_finished rounds cleared (ended_with cleared r) input f (
          ap (λ o. elim o [ none ↦ fail decoder_failed | some s ↦ after_step d cleared input s ])
            called
          ∙ after_step_ended cleared input r e small whole)

  -- What a push and the finish after it return for a stream that one call of the decoder reads to its
  -- end and that the next call finds ended.
  module _ (ended : State) (packed plain : List ℕ) (max_output : ℕ)
      (called : decompress_vec start packed inflate_buf_step false
        ≡ some record { decoder = ended; produced = plain; ended = true })
      (read_all : total_in start + length packed ≤ total_in ended)
      (small : length plain ≤ max_output)
      (called_again : decompress_vec ended [] inflate_buf_step true
        ≡ some record { decoder = ended; produced = []; ended = true }) where
    abbrev pub after_push : Inflater d
    after_push = record {
      decoder = ended;
      out = plain;
      capacity = inflate_buf_step;
      max_output = max_output;
      stream_ended = true;
    }

    counted : total_out ended ≡ length plain
    counted = omega (arith, start_out, counts_out start packed inflate_buf_step false _ called)

    pub push_whole : push d (new d max_output) packed ≡ ok after_push
    unfolding push new
    push_whole =
        run_ended (new d max_output) packed false _ called refl (omega (arith, counted, small))
          read_all

    pub finish_whole : finish d after_push ≡ ok (record after_push { out = [] })
    unfolding finish
    finish_whole =
        ap (λ r. r >>= (λ i. ensure i.stream_ended truncated_stream >> ok i))
          (run_ended after_push [] true _ called_again refl (omega (arith, counted, small))
            (omega arith))
