-- ===== src/Wire/Runs.antt =====
-- The inflater of wire.rs over the toy decoder, whose streams end with a zero byte.
use ptransfer_cli.Common.{◌≡◌, ◌≢◌, refl, [], ◌∷◌, true, false, ok, err, arith}
use ptransfer_cli.Wire.{
  Inflater, out_of_rounds, too_large, trailing_data, truncated_stream, inflate_buf_step, run_loop,
  run_round, after_step, run, push, finish,
}
use ptransfer_cli.Wire.Flate.Toy.{toy_decoder}
use ptransfer_cli.Wire.Bounds.{push_ends}

abbrev fresh : Inflater toy_decoder
fresh = record {
  decoder = record { ins = 0; outs = 0; over = false };
  out = [];
  capacity = inflate_buf_step;
  max_output = 4;
  stream_ended = false;
}

abbrev half_way : Inflater toy_decoder
half_way = record fresh { decoder = record { ins = 2; outs = 2; over = false }; out = 5 ∷ 6 ∷ [] }

abbrev ended : Inflater toy_decoder
ended = record fresh {
  decoder = record { ins = 3; outs = 2; over = true };
  out = [];
  stream_ended = true;
}

push_half : push toy_decoder fresh (5 ∷ 6 ∷ []) ≡ ok half_way
unfolding push run run_loop run_round after_step
push_half = refl

finish_half : finish toy_decoder half_way ≡ err truncated_stream
unfolding finish run run_loop run_round after_step
finish_half = refl

push_too_large : push toy_decoder fresh (1 ∷ 2 ∷ 3 ∷ 4 ∷ 5 ∷ []) ≡ err too_large
unfolding push run run_loop run_round after_step
push_too_large = refl

push_trailing : push toy_decoder fresh (1 ∷ 0 ∷ 7 ∷ []) ≡ err trailing_data
unfolding push run run_loop run_round after_step
push_trailing = refl

finish_end : finish toy_decoder ended ≡ ok ended
unfolding finish run run_loop run_round after_step
finish_end = refl

push_ends_example : push toy_decoder half_way (9 ∷ 0 ∷ []) ≢ err out_of_rounds
push_ends_example = push_ends toy_decoder half_way (9 ∷ 0 ∷ []) (omega arith)
