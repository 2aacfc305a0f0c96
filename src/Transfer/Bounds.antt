-- ===== src/Transfer/Bounds.antt =====
-- The limits of transfer.rs: what the receiver writes, and what the sender hands over.
use ptransfer_cli.Common.{
  ℕ, ◌+◌, ◌≤◌, ◌≡◌, refl, sym, ap, subst, ◌∙◌, List, [], ◌++◌, Option, none, some, length,
  length-append, Result, ok, err, >>=-ok, arith,
}
use ptransfer_cli.Crypto.Aead.{Aead}
use ptransfer_cli.Wire
use ptransfer_cli.Wire.{WireEncoding, deflate_raw, identity, Inflater}
use ptransfer_cli.Wire.Flate.{Decoder}
use ptransfer_cli.Wire.Bounds.{IsCapped, Gains, push_facts, finish_facts}
use ptransfer_cli.Transfer.{text, binary}
use ptransfer_cli.Transfer.Sender.{Inbox, message, closed, silent}
use ptransfer_cli.Transfer.Receiver.{
  Disk, Receiving, start, receive_chunk, receive_done, receive_loop, write_all, write_inflated,
  write_plain, write_rest,
}
use ptransfer_cli.Transfer.Soundness.{write_plain_identity}
use ptransfer_cli.Transfer.Step.{Takes, receive_chunk-Takes, receive_done-facts}

module _ (d : Decoder) (disk : Disk) (aead : Aead) (key : List ℕ) (max_bytes : ℕ) where
  open d use {total_out, start_out}

  -- What the file holds is what arrived, or what the capped decoder produced.
  abbrev pub Fits : Option (Inflater d) → List ℕ → ℕ → Type 0
  Fits none written received_bytes =
      (length written ≡ received_bytes) × (received_bytes ≤ max_bytes)
  Fits (some i) written received_bytes =
      (length written ≡ total_out i.decoder) × IsCapped d i × (i.max_output ≡ max_bytes)

  abbrev pub IsBounded : Receiving d → Type 0
  IsBounded s = Fits s.inflater s.written s.received_bytes

  Fits→le : (i : Option (Inflater d)) (w : List ℕ) (n : ℕ) → Fits i w n → length w ≤ max_bytes
  Fits→le none w n h = omega arith
  Fits→le (some i) w n h = omega arith

  write_all-eq : (w b w' : List ℕ) → write_all d disk w b ≡ ok w' → w' ≡ w ++ b
  unfolding write_all
  write_all-eq w b w' h = ground arith

  write_inflated-facts :
      (r : Result Wire.Error (Inflater d)) (j : Option (Inflater d)) (w w' : List ℕ)
      → write_inflated d disk w r ≡ ok (j, w')
      → (k : Inflater d) × (r ≡ ok k) × (j ≡ some k) × (w' ≡ w ++ k.out)
  unfolding write_inflated
  write_inflated-facts (err e) j w w' h = cc
  write_inflated-facts (ok k) j w w' h = (k, refl, ground arith, ground arith)

  inflated-Fits :
      (i k : Inflater d) (j : Option (Inflater d)) (w w' : List ℕ) (m n : ℕ)
      → Fits (some i) w m
      → Gains d (record i { out = [] }) k
      → j ≡ some k
      → w' ≡ w ++ k.out
      → Fits j w' n
  inflated-Fits i k j w w' m n (len, capped, cap) g same out =
      rw (same, Fits)
        (omega (arith, ap length out, length-append w k.out, g.gained), g.capped, g.same_cap ∙ cap)

  write_plain-Fits :
      (i j : Option (Inflater d)) (w w' plain : List ℕ) (n : ℕ)
      → Fits i w n
      → n + length plain ≤ max_bytes
      → write_plain d disk i w plain ≡ ok (j, w')
      → Fits j w' (n + length plain)
  unfolding write_plain
  write_plain-Fits none j w w' plain n h k e =
      let (same, out) = write_plain_identity d disk aead key max_bytes w plain w' j e in
      rw (same, Fits) (omega (arith, h.0, ap length out, length-append w plain), k)
  write_plain-Fits (some i) j w w' plain n h k e =
      let (i', pushed, same, out) = write_inflated-facts (Wire.push d i plain) j w w' e in
      inflated-Fits i i' j w w' n _ h ((push_facts d i plain h.1).1 i' pushed) same out

  write_rest-Fits :
      (i j : Option (Inflater d)) (w w' : List ℕ) (n : ℕ)
      → Fits i w n
      → write_rest d disk i w ≡ ok (j, w')
      → Fits j w' n
  unfolding write_rest
  write_rest-Fits none j w w' n h e = ground arith
  write_rest-Fits (some i) j w w' n h e =
      let (i', ended, same, out) = write_inflated-facts (Wire.finish d i) j w w' e in
      inflated-Fits i i' j w w' n n h (((finish_facts d i h.1).1 i' ended).0) same out

  Takes-IsBounded :
      (s s' : Receiving d) (b : List ℕ)
      → Takes d disk aead key max_bytes s b s'
      → IsBounded s
      → IsBounded s'
  Takes-IsBounded s s' b takes h = subst (Fits s'.inflater s'.written) (sym takes.totalled) (
      write_plain-Fits s.inflater s'.inflater s.written s'.written takes.plain s.received_bytes h
        (omega (arith, takes.totalled, takes.within)) takes.writes)

  receive_done-IsBounded :
      (s t : Receiving d) (msg : List ℕ) (c b : ℕ)
      → IsBounded s
      → receive_done d disk aead key max_bytes s msg ≡ ok (t, c, b)
      → IsBounded t
  receive_done-IsBounded s t msg c b h e =
      let (parsed, count, total, wrote, same_c, same_b) =
        receive_done-facts d disk aead key max_bytes s t msg c b e in
      subst (Fits t.inflater t.written) (sym total)
        (write_rest-Fits s.inflater t.inflater s.written t.written s.received_bytes h wrote)

  receive_loop-IsBounded :
      (inbox : Inbox) (s t : Receiving d) (o : Option (ℕ × ℕ))
      → IsBounded s
      → receive_loop d disk aead key max_bytes s inbox ≡ ok (t, o)
      → IsBounded t
  unfolding receive_loop
  receive_loop-IsBounded closed s t o b h = ground arith
  receive_loop-IsBounded silent s t o b h = cc
  receive_loop-IsBounded (message (text msg) rest) s t o b h =
      let ((t', c', b'), e, h₁) = >>=-ok (receive_done d disk aead key max_bytes s msg) _ h in
      subst IsBounded {x = t'} {y = t} (ground (arith, h₁))
        (receive_done-IsBounded s t' msg c' b' b e)
  receive_loop-IsBounded (message (binary msg) rest) s t o b h =
      let (s', e, h₁) = >>=-ok (receive_chunk d disk aead key max_bytes s msg) _ h in
      receive_loop-IsBounded rest s' t o
        (Takes-IsBounded s s' msg (receive_chunk-Takes d disk aead key max_bytes s msg s' e) b) h₁

  start-IsBounded : (encoding : WireEncoding) → IsBounded (start d encoding max_bytes)
  start-IsBounded deflate_raw = unfold Wire.new in omega (arith, start_out)
  start-IsBounded identity = omega arith

  -- Whatever arrives, and however it is encoded, the receiver has written no more than the cap.
  pub receive_loop-written :
      (encoding : WireEncoding) (inbox : Inbox) (t : Receiving d) (o : Option (ℕ × ℕ))
      → receive_loop d disk aead key max_bytes (start d encoding max_bytes) inbox ≡ ok (t, o)
      → length t.written ≤ max_bytes
  receive_loop-written encoding inbox t o h =
      Fits→le t.inflater t.written t.received_bytes
        (receive_loop-IsBounded inbox (start d encoding max_bytes) t o (start-IsBounded encoding) h)
