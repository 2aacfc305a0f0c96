-- ===== src/Wire/Bounds.antt =====
-- The inflater of wire.rs: its loop ends, and its output never passes the cap.
use ptransfer_cli.Common.{
  ℕ, zero, suc, ◌+◌, ◌-◌, ◌≤◌, ◌<◌, ◌≡◌, ◌≢◌, inl, inr, List, [], Bool, true, false, Option-cases,
  length, length-append, length-drop, Result, ok, err, ◌>>=◌, ◌>>◌, arith, ensure,
}
use ptransfer_cli.Wire.Flate.{Decoder, Step}
use ptransfer_cli.Wire.{
  Error, out_of_rounds, truncated_stream, Inflater, Round, fail, finished, again, after_step,
  run_round, run_loop, run, push, finish, room,
}

module _ (d : Decoder) where
  open d use {State, total_in, total_out, decompress_vec, counts_in, counts_out}

  -- The decoder's total is within the cap.
  abbrev pub IsCapped : Inflater d → Type 0
  IsCapped i = total_out i.decoder ≤ i.max_output

  -- What the decoder produced on the way from `i` to `j` is what `out` gained.
  pub record Gains (i j : Inflater d) : Type 0 where
    pub capped : IsCapped j
    pub same_cap : j.max_output ≡ i.max_output
    pub gained : total_out j.decoder + length i.out ≡ total_out i.decoder + length j.out

  abbrev left : Inflater d → List ℕ → ℕ
  left i input = length input + (i.max_output - total_out i.decoder)

  abbrev RoundFacts : Inflater d → List ℕ → Round d → Type 0
  RoundFacts i input (fail e) = e ≢ out_of_rounds
  RoundFacts i input (finished j) = Gains i j
  RoundFacts i input (again j rest) = Gains i j × (left j rest < left i input)

  after_step_facts :
      (i : Inflater d) (input : List ℕ) (r : Step State)
      → total_in i.decoder ≤ total_in r.decoder
      → total_in r.decoder ≤ total_in i.decoder + length input
      → total_out r.decoder ≡ total_out i.decoder + length r.produced
      → IsCapped i
      → RoundFacts i input (after_step d i input r)
  unfolding after_step
  after_step_facts i input r h k p c = ground (
    arith,
    length-append i.out r.produced,
    length-drop (total_in r.decoder - total_in i.decoder) input,
  )

  run_round_facts :
      (i : Inflater d) (input : List ℕ) (f : Bool)
      → IsCapped i
      → RoundFacts i input (run_round d i input f)
  unfolding run_round
  run_round_facts i input f c = elim (Option-cases (decompress_vec i.decoder input (room d i) f)) [
    | inl e ↦ rw (RoundFacts, run_round, e) (λ h. cc)
    | inr (r, e) ↦
        let (lo, hi) = counts_in i.decoder input (room d i) f r e in
        rw (RoundFacts, run_round, e)
          (after_step_facts i input r lo hi (counts_out i.decoder input (room d i) f r e) c)
  ]

  Gains-trans : (i j k : Inflater d) → Gains i j → Gains j k → Gains i k
  Gains-trans i j k p q = omega arith

  abbrev Outcome : Inflater d → Result Error (Inflater d) → Type 0
  Outcome i (ok j) = Gains i j
  Outcome i (err e) = e ≢ out_of_rounds

  run_loop_facts :
      (rounds : ℕ) (i : Inflater d) (input : List ℕ) (f : Bool)
      → IsCapped i
      → left i input < rounds
      → Outcome i (run_loop d rounds i input f)
  unfolding run_loop
  run_loop_facts zero i input f c h = absurd (omega arith)
  run_loop_facts (suc rounds) i input f c h =
      step (run_round d i input f) (run_round_facts i input f c)
        (λ j rest. run_loop_facts rounds j rest f)
    where
      step :
          (r : Round d)
          → RoundFacts i input r
          → ((j : Inflater d) (rest : List ℕ)
              → IsCapped j
              → left j rest < rounds
              → Outcome j (run_loop d rounds j rest f))
          → Outcome i (elim r [
            | fail e ↦ err e
            | finished j ↦ ok j
            | again j rest ↦ run_loop d rounds j rest f
          ])
      step (fail e) p rec = p
      step (finished j) p rec = p
      step (again j rest) (g, less) rec =
          carry (run_loop d rounds j rest f) (rec j rest g.capped (omega arith))
        where
          carry : (o : Result Error (Inflater d)) → Outcome j o → Outcome i o
          carry (ok k) q = Gains-trans i j k g q
          carry (err e) q = q

  run_facts :
      (i : Inflater d) (input : List ℕ) (f : Bool)
      → IsCapped i
      → Outcome (record i { out = [] }) (run d i input f)
  unfolding run
  run_facts i input f c = run_loop_facts _ (record i { out = [] }) input f c (omega arith)

  pub push_facts :
      (i : Inflater d) (input : List ℕ)
      → IsCapped i
      → (push d i input ≢ err out_of_rounds)
        × ((j : Inflater d) → push d i input ≡ ok j → Gains (record i { out = [] }) j)
  unfolding push
  push_facts i input c = split (run d i input false) (run_facts i input false c)
    where
      split :
          (o : Result Error (Inflater d))
          → Outcome (record i { out = [] }) o
          → (o ≢ err out_of_rounds)
            × ((j : Inflater d) → o ≡ ok j → Gains (record i { out = [] }) j)
      split (ok k) q = ((λ h. cc), λ j e. ground (arith, e, q))
      split (err e) q = ((λ h. q (cc)), λ j h. cc)

  pub finish_facts :
      (i : Inflater d)
      → IsCapped i
      → (finish d i ≢ err out_of_rounds)
        × ((j : Inflater d)
            → finish d i ≡ ok j
            → Gains (record i { out = [] }) j × (j.stream_ended ≡ true))
  unfolding finish
  finish_facts i c = split (run d i [] true) (run_facts i [] true c)
    where
      split :
          (o : Result Error (Inflater d))
          → Outcome (record i { out = [] }) o
          → ((do k ← o; ensure k.stream_ended truncated_stream; ok k) ≢ err out_of_rounds)
            × ((j : Inflater d)
                → (do k ← o; ensure k.stream_ended truncated_stream; ok k) ≡ ok j
                → Gains (record i { out = [] }) j × (j.stream_ended ≡ true))
      split (ok k) q = ((λ h. ground arith), λ j e. ground (arith, q))
      split (err e) q = ((λ h. q (cc)), λ j h. cc)

  -- From a decoder within the cap, the loop of a `push` ends by itself, whatever the input.
  pub push_ends :
      (i : Inflater d) (input : List ℕ) → IsCapped i → push d i input ≢ err out_of_rounds
  push_ends i input c = (push_facts i input c).0

  -- What a `push` returns is what the decoder has produced by it, and the total stays in the cap.
  pub push-Gains :
      (i j : Inflater d) (input : List ℕ)
      → IsCapped i
      → push d i input ≡ ok j
      → Gains (record i { out = [] }) j
  push-Gains i j input c e = (push_facts i input c).1 j e

  -- `finish` returns only at the end of the compressed stream, with what the decoder has produced by
  -- it, and within the cap.
  pub finish-ended :
      (i j : Inflater d)
      → IsCapped i
      → finish d i ≡ ok j
      → Gains (record i { out = [] }) j × (j.stream_ended ≡ true)
  finish-ended i j c e = (finish_facts i c).1 j e
