-- ===== src/Wire/Flate/Toy.antt =====
-- A decoder that meets the assumptions on `flate2`: it copies its input up to a zero byte, which
-- ends the stream.
use ptransfer_cli.Common.{
  ℕ, zero, suc, ◌+◌, ◌≤◌, ◌≡◌, refl, Option, some, List, [], ◌∷◌, length, Bool, true, false,
  if◌then◌else◌, arith,
}
use ptransfer_cli.Wire.Flate.{Decoder, Step}

-- The bytes read, the bytes written, and whether the stream has ended.
pub record Totals : Type 0 where
  pub ins : ℕ
  pub outs : ℕ
  pub over : Bool

-- At most `room` bytes up to a zero: what was copied, and whether the zero was met.
abbrev pub copy : ℕ → List ℕ → List ℕ × Bool
copy room [] = ([], false)
copy zero (x ∷ xs) = ([], false)
copy (suc room) (zero ∷ xs) = ([], true)
copy (suc room) (suc x ∷ xs) = let (ys, e) = copy room xs in (suc x ∷ ys, e)

copy-le : (room : ℕ) (xs : List ℕ) → length (copy room xs).0 ≤ length xs
copy-le room [] = omega arith
copy-le zero (x ∷ xs) = omega arith
copy-le (suc room) (zero ∷ xs) = omega arith
copy-le (suc room) (suc x ∷ xs) = omega (arith, copy-le room xs)

copy-ended :
    (room : ℕ) (xs : List ℕ) → (copy room xs).1 ≡ true → length (copy room xs).0 + 1 ≤ length xs
copy-ended room [] h = cc
copy-ended zero (x ∷ xs) h = cc
copy-ended (suc room) (zero ∷ xs) h = omega arith
copy-ended (suc room) (suc x ∷ xs) h = omega (arith, copy-ended room xs h)

-- After the end nothing more is read, and the end is reported again.
abbrev pub toy_step : Totals → List ℕ → ℕ → Bool → Option (Step Totals)
toy_step s input room finish =
    let (out, e) = copy room input in
    if s.over
    then some record { decoder = s; produced = []; ended = true }
    else some record {
      decoder = record {
        ins = s.ins + length out + (if e then 1 else 0);
        outs = s.outs + length out;
        over = e;
      };
      produced = out;
      ended = e;
    }

pub toy_counts_in :
    (s : Totals) (input : List ℕ) (room : ℕ) (finish : Bool) (r : Step Totals)
    → toy_step s input room finish ≡ some r
    → (s.ins ≤ r.decoder.ins) × (r.decoder.ins ≤ s.ins + length input)
toy_counts_in s input room finish r h = ground (arith, h, copy-le room input, copy-ended room input)

pub toy_counts_out :
    (s : Totals) (input : List ℕ) (room : ℕ) (finish : Bool) (r : Step Totals)
    → toy_step s input room finish ≡ some r
    → r.decoder.outs ≡ s.outs + length r.produced
toy_counts_out s input room finish r h = ground (arith, h)

abbrev pub toy_decoder : Decoder
toy_decoder = record {
  State = Totals;
  start = record { ins = 0; outs = 0; over = false };
  total_in = λ s. s.ins;
  total_out = λ s. s.outs;
  start_out = refl;
  decompress_vec = toy_step;
  counts_in = toy_counts_in;
  counts_out = toy_counts_out;
}
