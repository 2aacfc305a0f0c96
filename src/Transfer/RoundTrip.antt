-- ===== src/Transfer/RoundTrip.antt =====
-- The two sides of transfer.rs together.
use ptransfer_cli.Common.{
  ℕ, ◌^◌, ◌≤◌, ◌<◌, ◌≡◌, refl, sym, ap, ap₂, ◌∙◌, List, [], ◌∷◌, ◌++◌, map, true, false, some,
  length, concat, ok, arith,
}
use ptransfer_cli.Crypto.Aead.{Aead}
use ptransfer_cli.Wire.{identity}
use ptransfer_cli.Wire.Flate.{Decoder}
use ptransfer_cli.Transfer.{Message, text, max_chunks, done_text, ack}
use ptransfer_cli.Transfer.Sender.{Link, Inbox, send_done, run_sender, wait_for_ack}
use ptransfer_cli.Transfer.Receiver.{
  Disk, Files, Receiving, start, receive_loop, persist, after_loop, run_receiver,
}
use ptransfer_cli.Transfer.Exchange.{
  IsWorking, IsPieces, Advanced, advance, advance_lem, deliver, deliver-append, messages,
  send_chunks_lem, receive_loop-messages, receive_loop-done,
}

-- A disk on which nothing fails.
pub record IsSound (disk : Disk) : Type 0 where
  pub creates : disk.creates ≡ true
  pub writes : (written bytes : List ℕ) → disk.writes written bytes ≡ true
  pub flushes : disk.flushes ≡ true
  pub syncs : disk.syncs ≡ true
  pub renames : disk.renames ≡ true

module _ (aead : Aead) (key : List ℕ) (max_bytes : ℕ) (link : Link) (works : IsWorking link) where
  module _ (d : Decoder) (disk : Disk) (sound : IsSound disk) (chunks : List (List ℕ)) where
    abbrev count : ℕ
    count = length chunks

    abbrev total : ℕ
    total = length (concat chunks)

    abbrev trailer : Message
    trailer = text (done_text count total)

    abbrev sent_messages : List Message
    sent_messages =
        messages aead key max_bytes link works d disk sound.writes 0 chunks ++ trailer ∷ []

    run_sender_lem :
        IsPieces chunks
        → count ≤ max_chunks
        → total ≤ max_bytes
        → total < 2 ^ 64
        → run_sender aead key max_bytes link (map some chunks)
          ≡ (sent_messages, wait_for_ack link.replies)
    unfolding run_sender send_done
    run_sender_lem h m n p =
        rw
          (send_chunks_lem aead key max_bytes link works d disk sound.writes chunks 0 0 h
            (omega arith) (omega arith) (omega arith))
          (rw works.takes (ground arith))

    abbrev received : Receiving d
    received =
        advance aead key max_bytes link works d disk sound.writes (start d identity max_bytes)
          chunks

    facts :
        Advanced aead key max_bytes link works d disk sound.writes
          (start d identity max_bytes)
          received
          chunks
    facts =
        advance_lem aead key max_bytes link works d disk sound.writes (start d identity max_bytes)
          chunks refl

    counts : (received.received_count ≡ count) × (received.received_bytes ≡ total)
    counts = omega (arith, facts.counted, facts.totalled)

    loop_lem :
        (rest : Inbox)
        → IsPieces chunks
        → count ≤ max_chunks
        → total ≤ max_bytes
        → total < 2 ^ 64
        → receive_loop d disk aead key max_bytes
            (start d identity max_bytes)
            (deliver sent_messages rest)
          ≡ ok (received, some (received.received_count, received.received_bytes))
    loop_lem rest h m n p =
        let ms = messages aead key max_bytes link works d disk sound.writes 0 chunks in
        let loop = receive_loop d disk aead key max_bytes in
        ap (loop (start d identity max_bytes)) (deliver-append ms (trailer ∷ []) rest)
        ∙ receive_loop-messages aead key max_bytes link works d disk sound.writes chunks
            (start d identity max_bytes) (deliver (trailer ∷ []) rest) refl refl h (omega arith)
            (omega arith) (omega arith)
        ∙ ap₂ (λ c b. loop received (deliver (text (done_text c b) ∷ []) rest)) (sym counts.0)
            (sym counts.1)
        ∙ receive_loop-done aead key max_bytes link works d disk sound.writes received rest
            facts.no_inflater (omega (arith, counts)) (omega (arith, counts))
            (omega (arith, counts))

    -- A source of pieces within the limits, over a link and to a disk on which nothing fails: the
    -- receiver that gets what the sender handed over, whatever follows it, puts exactly the bytes of
    -- the pieces in place, leaves no `.part` file, acknowledges and succeeds; and the sender to whom
    -- that acknowledgment comes back succeeds.
    pub run_receiver-run_sender :
        (files : Files) (rest replies : Inbox)
        → IsPieces chunks
        → count ≤ max_chunks
        → total ≤ max_bytes
        → total < 2 ^ 64
        → link.replies ≡ deliver (text ack ∷ []) replies
        → (run_receiver d disk aead key max_bytes files identity true
              (deliver (run_sender aead key max_bytes link (map some chunks)).0 rest)
            ≡ record {
              files = record { dest = some (concat chunks); part = false };
              sent = text ack ∷ [];
              result = ok tt;
            })
          × ((run_sender aead key max_bytes link (map some chunks)).1 ≡ ok tt)
    run_receiver-run_sender files rest replies h m n p r =
        rw (run_sender_lem h m n p) (received_lem, rw r (unfold wait_for_ack in refl))
      where
        received_lem :
            run_receiver d disk aead key max_bytes files identity true (deliver sent_messages rest)
            ≡ record {
              files = record { dest = some (concat chunks); part = false };
              sent = text ack ∷ [];
              result = ok tt;
            }
        received_lem =
            unfold run_receiver after_loop persist in
            rw (loop_lem rest h m n p) (
              ground (arith, facts.wrote, sound.creates, sound.flushes, sound.syncs, sound.renames))
