-- ===== src/Transfer/Soundness.antt =====
-- What the receiver of transfer.rs has accepted when its loop has seen the trailer.
use ptransfer_cli.Common.{
  ℕ, ◌+◌, ◌≤◌, ◌<◌, ◌≡◌, refl, sym, ap, subst, ◌∙◌, List, [], ◌∷◌, ◌++◌, append-nil, append_assoc,
  false, Option, none, some, length, length-append, concat, Result, ok, err, >>=-ok, ok_injective,
  ensure-next, true, arith,
}
use ptransfer_cli.Crypto.Aead.{Aead}
use ptransfer_cli.Crypto.Chunk.{encryption_chunk_size, parse_chunk_message, decrypt_chunk}
use ptransfer_cli.Wire
use ptransfer_cli.Wire.{Inflater, truncated_stream}
use ptransfer_cli.Wire.Flate.{Decoder}
use ptransfer_cli.Transfer.{text, binary, parse_done}
use ptransfer_cli.Transfer.Sender.{Inbox, message, closed, silent}
use ptransfer_cli.Transfer.Receiver.{
  Disk, Receiving, is_short, receive_chunk, receive_done, receive_loop, write_plain, write_rest,
  write_all, write_inflated,
}
use ptransfer_cli.Transfer.Step.{Takes, receive_chunk-Takes, receive_done-facts}

module _ (d : Decoder) (disk : Disk) (aead : Aead) (key : List ℕ) (max_bytes : ℕ) where
  -- The messages of `inbox`, from chunk `i` on with `total` bytes before it: chunks that open, each
  -- under its own index, as `plains`, and a trailer that states their number and their bytes.
  abbrev pub Opens : ℕ → ℕ → List (List ℕ) → Inbox → Type 0
  Opens i total [] inbox =
      (msg : List ℕ) × (rest : Inbox) × (inbox ≡ message (text msg) rest)
      × (parse_done msg max_bytes ≡ ok (i, total))
  Opens i total (p ∷ ps) inbox =
      (b : List ℕ) × (encrypted : List ℕ) × (rest : Inbox) × (inbox ≡ message (binary b) rest)
      × (parse_chunk_message b ≡ ok (i, encrypted))
      × (decrypt_chunk aead key encrypted i ≡ ok p)
      × Opens (i + 1) (total + length p) ps rest

  -- No piece is empty or too long, and none follows a short one.
  abbrev pub Follows : Option ℕ → List (List ℕ) → Type 0
  Follows previous [] = Unit
  Follows previous (p ∷ ps) =
      (is_short previous ≡ false)
      × (0 < length p)
      × (length p ≤ encryption_chunk_size)
      × Follows (some (length p)) ps

  -- What the inflater makes of the pieces, one after the other, and then of the end, at which the stream
  -- has to be over.
  abbrev pub Inflates : Inflater d → List (List ℕ) → List ℕ → Type 0
  Inflates i [] out =
      (j : Inflater d) × (Wire.finish d i ≡ ok j) × (j.stream_ended ≡ true) × (out ≡ j.out)
  Inflates i (p ∷ ps) out =
      (j : Inflater d) × (rest : List ℕ) × (Wire.push d i p ≡ ok j)
      × (out ≡ j.out ++ rest)
      × Inflates j ps rest

  -- What is written of the pieces, with an inflater or as they are.
  abbrev pub Writes : Option (Inflater d) → List ℕ → List (List ℕ) → List ℕ → Type 0
  Writes none before plains after = after ≡ before ++ concat plains
  Writes (some i) before plains after =
      (out : List ℕ) × (after ≡ before ++ out) × Inflates i plains out

  pub record Accepted (s : Receiving d) (inbox : Inbox) (t : Receiving d) (c b : ℕ) : Type 0 where
    pub plains : List (List ℕ)
    pub opens : Opens s.received_count s.received_bytes plains inbox
    pub pieces : Follows s.previous_chunk_len plains
    pub counted : t.received_count ≡ s.received_count + length plains
    pub totalled : t.received_bytes ≡ s.received_bytes + length (concat plains)
    pub sealed_count : c ≡ t.received_count
    pub sealed_bytes : b ≡ t.received_bytes
    pub wrote : Writes s.inflater s.written plains t.written

  pub write_plain_identity :
      (written plain out : List ℕ) (i : Option (Inflater d))
      → write_plain d disk none written plain ≡ ok (i, out)
      → (i ≡ none) × (out ≡ written ++ plain)
  unfolding write_plain
  write_plain_identity written plain out i h = ground arith

  pub write_rest_identity :
      (written out : List ℕ) (i : Option (Inflater d))
      → write_rest d disk none written ≡ ok (i, out)
      → out ≡ written
  unfolding write_rest
  write_rest_identity written out i h = ground arith

  write_inflated-ok :
      (written out : List ℕ) (inflated : Result Wire.Error (Inflater d)) (i : Option (Inflater d))
      → write_inflated d disk written inflated ≡ ok (i, out)
      → (j : Inflater d) × (inflated ≡ ok j) × (i ≡ some j) × (out ≡ written ++ j.out)
  unfolding write_inflated write_all
  write_inflated-ok written out (err e) i h = cc
  write_inflated-ok written out (ok j) i h =
      let (after, wrote, a) = >>=-ok (write_all d disk written j.out) _ h in
      let same = ok_injective a in
      (j, refl, sym (ap (λ q. q.0) same), ground (arith, wrote, ap (λ q. q.1) same))

  finish-stream_ended : (i j : Inflater d) → Wire.finish d i ≡ ok j → j.stream_ended ≡ true
  unfolding Wire.finish
  finish-stream_ended i j h =
      let (k, ran, a) = >>=-ok (Wire.run d i [] true) _ h in
      let (over, b) = ensure-next k.stream_ended truncated_stream (ok k) a in
      ap (λ q. q.stream_ended) (sym (ok_injective b)) ∙ over

  write_plain-Writes :
      (inflater after : Option (Inflater d)) (written plain out : List ℕ) (plains : List (List ℕ))
      (last : List ℕ)
      → write_plain d disk inflater written plain ≡ ok (after, out)
      → Writes after out plains last
      → Writes inflater written (plain ∷ plains) last
  unfolding write_plain
  write_plain-Writes none after written plain out plains last h later =
      let (none', wrote) = write_plain_identity written plain out after h in
      subst (λ i. Writes i out plains last) none' later
      ∙ ap (λ w. w ++ concat plains) wrote
      ∙ append_assoc written plain (concat plains)
  write_plain-Writes (some i) after written plain out plains last h later =
      let (j, pushed, some', wrote) = write_inflated-ok written out (Wire.push d i plain) after h in
      let (rest, behind, inflated) = subst (λ o. Writes o out plains last) some' later in
      (
        j.out ++ rest,
        behind ∙ ap (λ w. w ++ rest) wrote ∙ append_assoc written j.out rest,
        (j, rest, pushed, refl, inflated),
      )

  write_rest-Writes :
      (inflater after : Option (Inflater d)) (written out : List ℕ)
      → write_rest d disk inflater written ≡ ok (after, out)
      → Writes inflater written [] out
  unfolding write_rest
  write_rest-Writes none after written out h =
      write_rest_identity written out after h ∙ sym (append-nil written)
  write_rest-Writes (some i) after written out h =
      let (j, ended, some', wrote) = write_inflated-ok written out (Wire.finish d i) after h in
      (j.out, wrote, (j, ended, finish-stream_ended i j ended, refl))

  accept_chunk :
      (s s' t : Receiving d) (msg : List ℕ) (rest : Inbox) (c b : ℕ)
      → Takes d disk aead key max_bytes s msg s'
      → Accepted s' rest t c b
      → Accepted s (message (binary msg) rest) t c b
  accept_chunk s s' t msg rest c b takes later =
      let p : List ℕ = takes.plain in
      let opens' : Opens (s.received_count + 1) (s.received_bytes + length p) later.plains rest =
        subst (λ n. Opens n (s.received_bytes + length p) later.plains rest) takes.counted
          (subst (λ n. Opens s'.received_count n later.plains rest) takes.totalled later.opens) in
      record {
        plains = p ∷ later.plains;
        opens = (msg, takes.encrypted, rest, refl, takes.parses, takes.opens, opens');
        pieces = (
          takes.in_place,
          takes.not_empty,
          takes.not_long,
          subst (λ l. Follows l later.plains) takes.last_len later.pieces,
        );
        counted = omega (arith, later.counted, takes.counted);
        totalled =
            omega (arith, later.totalled, takes.totalled, length-append p (concat later.plains));
        sealed_count = later.sealed_count;
        sealed_bytes = later.sealed_bytes;
        wrote =
            write_plain-Writes s.inflater s'.inflater s.written p s'.written later.plains t.written
              takes.writes later.wrote;
      }

  accept_done :
      (s t : Receiving d) (msg : List ℕ) (rest : Inbox) (c b : ℕ)
      → receive_done d disk aead key max_bytes s msg ≡ ok (t, c, b)
      → Accepted s (message (text msg) rest) t c b
  accept_done s t msg rest c b h =
      let (parsed, count, total, wrote, same_c, same_b) =
        receive_done-facts d disk aead key max_bytes s t msg c b h in
      record {
        plains = [];
        opens = (msg, rest, refl, parsed);
        pieces = tt;
        counted = omega arith;
        totalled = omega arith;
        sealed_count = omega arith;
        sealed_bytes = omega arith;
        wrote = write_rest-Writes s.inflater t.inflater s.written t.written wrote;
      }

  -- The loop ends with a trailer only after chunks in order that open to the bytes it counts.
  pub receive_loop-Accepted :
      (inbox : Inbox) (s t : Receiving d) (c b : ℕ)
      → receive_loop d disk aead key max_bytes s inbox ≡ ok (t, some (c, b))
      → Accepted s inbox t c b
  unfolding receive_loop
  receive_loop-Accepted closed s t c b h = absurd (ground arith)
  receive_loop-Accepted silent s t c b h = cc
  receive_loop-Accepted (message (text msg) rest) s t c b h = accept_done s t msg rest c b (
      let ((t', c', b'), e, h₁) = >>=-ok (receive_done d disk aead key max_bytes s msg) _ h in
      cc (e, h₁))
  receive_loop-Accepted (message (binary msg) rest) s t c b h =
      let (s', e, h₁) = >>=-ok (receive_chunk d disk aead key max_bytes s msg) _ h in
      accept_chunk s s' t msg rest c b (receive_chunk-Takes d disk aead key max_bytes s msg s' e)
        (receive_loop-Accepted rest s' t c b h₁)
