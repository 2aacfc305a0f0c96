-- ===== src/Transfer/Delivery.antt =====
-- How a run of `run_receiver` of transfer.rs can end.
use ptransfer_cli.Common.{
  ℕ, ◌≤◌, ◌≡◌, ◌≢◌, refl, sym, ap, subst, ◌∙◌, ◌⊎◌, inl, inr, List, [], Bool, true, false, not,
  if◌then◌else◌, ◌&&◌, Option, none, some, length, concat, Result, ok, err, Bool-cases, arith,
}
use ptransfer_cli.Crypto.Aead.{Aead}
use ptransfer_cli.Wire
use ptransfer_cli.Wire.{WireEncoding, identity, deflate_raw}
use ptransfer_cli.Wire.Flate.{Decoder}
use ptransfer_cli.Transfer.{Error}
use ptransfer_cli.Transfer.Sender.{Inbox}
use ptransfer_cli.Transfer.Receiver.{
  Disk, Files, Receiving, Received, start, receive_loop, persist, after_loop, run_receiver,
}
use ptransfer_cli.Transfer.Soundness.{Accepted, Opens, Follows, Inflates, receive_loop-Accepted}
use ptransfer_cli.Transfer.Bounds.{receive_loop-written}

module _ (d : Decoder) (disk : Disk) (aead : Aead) (key : List ℕ) (max_bytes : ℕ) where
  abbrev pub loop : WireEncoding → Inbox → Result Error (Receiving d × Option (ℕ × ℕ))
  loop encoding inbox = receive_loop d disk aead key max_bytes (start d encoding max_bytes) inbox

  -- The destination is as it was, nothing was acknowledged, and the run failed.
  abbrev pub Untouched : Files → Received → Type 0
  Untouched files r = (r.files.dest ≡ files.dest) × (r.sent ≡ []) × (r.result ≢ ok tt)

  -- What the file holds: the plaintext of the chunks, or, for a compressed payload, what a new inflater
  -- makes of them up to the end of their stream.
  abbrev pub Holds : WireEncoding → List ℕ → List (List ℕ) → Type 0
  Holds identity written plains = written ≡ concat plains
  Holds deflate_raw written plains =
      Inflates d disk aead key max_bytes (Wire.new d max_bytes) plains written

  -- The destination holds `written`, within the cap, and the messages are chunks that open in order
  -- as `plains`, with a trailer that counts them.
  pub record Delivered (encoding : WireEncoding) (inbox : Inbox) (r : Received) : Type 0 where
    pub written : List ℕ
    pub plains : List (List ℕ)
    pub opens : Opens d disk aead key max_bytes 0 0 plains inbox
    pub pieces : Follows d disk aead key max_bytes none plains
    pub placed : r.files ≡ record { dest = some written; part = false }
    pub within : length written ≤ max_bytes
    pub holds : Holds encoding written plains

  after_loop_cases :
      (files : Files) (takes_ack : Bool) (t : Receiving d) (c b : ℕ)
      → (let r = after_loop d disk aead key max_bytes files takes_ack (ok (t, some (c, b))) in
          Untouched files r
          ⊎ ((t.received_count ≡ c)
              × (t.received_bytes ≡ b)
              × (r.files ≡ record { dest = some t.written; part = false })))
  unfolding after_loop persist
  after_loop_cases files takes_ack t c b = ground arith

  holds_lem :
      (encoding : WireEncoding) (inbox : Inbox) (t : Receiving d) (c b : ℕ)
      (acc : Accepted d disk aead key max_bytes (start d encoding max_bytes) inbox t c b)
      → Holds encoding t.written acc.plains
  holds_lem identity inbox t c b acc = acc.wrote
  holds_lem deflate_raw inbox t c b acc =
      let (out, same, inflated) = acc.wrote in
      subst (Inflates d disk aead key max_bytes (Wire.new d max_bytes) acc.plains) (sym same)
        inflated

  delivered :
      (encoding : WireEncoding) (inbox : Inbox) (t : Receiving d) (c b : ℕ) (r : Received)
      → loop encoding inbox ≡ ok (t, some (c, b))
      → r.files ≡ record { dest = some t.written; part = false }
      → Delivered encoding inbox r
  delivered encoding inbox t c b r e placed =
      let acc =
        receive_loop-Accepted d disk aead key max_bytes inbox (start d encoding max_bytes) t c b
          e in
      record {
        written = t.written;
        plains = acc.plains;
        opens = acc.opens;
        pieces = acc.pieces;
        placed = placed;
        within = receive_loop-written d disk aead key max_bytes encoding inbox t (some (c, b)) e;
        holds = holds_lem encoding inbox t c b acc;
      }

  outcome :
      (files : Files) (encoding : WireEncoding) (takes_ack : Bool) (inbox : Inbox)
      (o : Result Error (Receiving d × Option (ℕ × ℕ)))
      → loop encoding inbox ≡ o
      → (let r = after_loop d disk aead key max_bytes files takes_ack o in
          Untouched files r ⊎ Delivered encoding inbox r)
  outcome files encoding takes_ack inbox (err e) h =
      inl (unfold after_loop in (refl, refl, λ q. cc))
  outcome files encoding takes_ack inbox (ok (t, none)) h =
      inl (unfold after_loop in (refl, refl, λ q. cc))
  outcome files encoding takes_ack inbox (ok (t, some (c, b))) h =
      elim (after_loop_cases files takes_ack t c b) [
        | inl u ↦ inl u
        | inr (m, n, placed) ↦ inr (delivered encoding inbox t c b _ h placed)
      ]

  run_receiver-created :
      (files : Files) (encoding : WireEncoding) (takes_ack : Bool) (inbox : Inbox)
      → disk.creates ≡ true
      → run_receiver d disk aead key max_bytes files encoding takes_ack inbox
        ≡ after_loop d disk aead key max_bytes files takes_ack (loop encoding inbox)
  unfolding run_receiver
  run_receiver-created files encoding takes_ack inbox e = ground arith

  -- A run either leaves the destination as it was, acknowledges nothing and fails; or it puts there
  -- what it accepted: chunks in order, each opened under its own index, none after a short one, with
  -- a trailer that states their number and bytes, and in all no more than the cap. It puts there the
  -- chunks' plaintext or, where the payload is compressed, what the inflater makes of it piece by piece,
  -- whose stream has come to its end.
  pub run_receiver_outcome :
      (files : Files) (encoding : WireEncoding) (takes_ack : Bool) (inbox : Inbox)
      → (let r = run_receiver d disk aead key max_bytes files encoding takes_ack inbox in
          Untouched files r ⊎ Delivered encoding inbox r)
  run_receiver_outcome files encoding takes_ack inbox = elim (Bool-cases disk.creates) [
    | inl e ↦
        subst (λ r. Untouched files r ⊎ Delivered encoding inbox r)
          (sym (run_receiver-created files encoding takes_ack inbox e))
          (outcome files encoding takes_ack inbox (loop encoding inbox) refl)
    | inr e ↦ inl (unfold run_receiver in ground arith)
  ]

  -- Whether the loop saw the trailer.
  abbrev pub is_complete : Result Error (Receiving d × Option (ℕ × ℕ)) → Bool
  is_complete (err e) = false
  is_complete (ok (t, none)) = false
  is_complete (ok (t, some counts)) = true

  -- The `.part` file left behind by the end of a run.
  abbrev is_left : Bool → Bool
  is_left complete =
      if complete then not (disk.flushes && (disk.syncs && disk.renames)) else not disk.removes

  after_loop-part :
      (files : Files) (encoding : WireEncoding) (takes_ack : Bool) (inbox : Inbox)
      (o : Result Error (Receiving d × Option (ℕ × ℕ)))
      → loop encoding inbox ≡ o
      → (after_loop d disk aead key max_bytes files takes_ack o).files.part
        ≡ is_left (is_complete o)
  unfolding after_loop persist
  after_loop-part files encoding takes_ack inbox (err e) h = refl
  after_loop-part files encoding takes_ack inbox (ok (t, none)) h = refl
  after_loop-part files encoding takes_ack inbox (ok (t, some (c, b))) h =
      let acc =
        receive_loop-Accepted d disk aead key max_bytes inbox (start d encoding max_bytes) t c b
          h in
      ground (arith, acc.sealed_count, acc.sealed_bytes)

  -- A run whose file was created leaves the `.part` file behind, where it saw the trailer, exactly when
  -- the flush, the sync or the rename fails, whether or not the disk removes files; and else exactly when
  -- the disk does not remove it.
  pub run_receiver-part :
      (files : Files) (encoding : WireEncoding) (takes_ack : Bool) (inbox : Inbox)
      → disk.creates ≡ true
      → (run_receiver d disk aead key max_bytes files encoding takes_ack inbox).files.part ≡ (
          if is_complete (loop encoding inbox)
          then not (disk.flushes && (disk.syncs && disk.renames))
          else not disk.removes)
  run_receiver-part files encoding takes_ack inbox hc =
      ap (λ r. r.files.part) (run_receiver-created files encoding takes_ack inbox hc)
      ∙ after_loop-part files encoding takes_ack inbox (loop encoding inbox) refl
