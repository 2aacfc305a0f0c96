-- ===== src/Transfer/Exchange.antt =====
-- The two sides of transfer.rs, message by message: what a working link carries, and how the
-- receiver's loop takes it.
use ptransfer_cli.Common.{
  ℕ, ◌+◌, ◌%◌, ◌^◌, ◌≤◌, ◌<◌, ◌≡◌, refl, sym, ap, ◌∙◌, List, [], ◌∷◌, ◌++◌, map, append-nil,
  append_assoc, true, false, none, some, length, length-append, concat, ok, arith,
}
use ptransfer_cli.Common.Bytes.{be16}
use ptransfer_cli.Crypto.Aead.{Aead, drawn}
use ptransfer_cli.Crypto.Chunk.{encryption_chunk_size, encrypt_chunk, parse_chunk_message}
use ptransfer_cli.Crypto.Chunk.RoundTrip.{parse-encrypt_chunk, decrypt-encrypt_chunk}
use ptransfer_cli.Wire.Flate.{Decoder}
use ptransfer_cli.Transfer.{Message, text, binary, max_chunks, done_text}
use ptransfer_cli.Transfer.SendStep.{send_chunks_step}
use ptransfer_cli.Transfer.Done.{parse_done-done_text}
use ptransfer_cli.Transfer.Sender.{Link, Inbox, message, taken, seal_next, send_chunks, after}
use ptransfer_cli.Transfer.Receiver.{
  Disk, Receiving, is_short, check_chunk, open_chunk, receive_chunk, receive_done, receive_loop,
  write_plain, write_rest,
}

-- A peer that sends these messages, and then the rest.
abbrev pub deliver : List Message → Inbox → Inbox
deliver [] rest = rest
deliver (m ∷ ms) rest = message m (deliver ms rest)

pub deliver-append :
    (ms ns : List Message) (rest : Inbox) → deliver (ms ++ ns) rest ≡ deliver ms (deliver ns rest)
deliver-append [] ns rest = refl
deliver-append (m ∷ ms) ns rest = ap (message m) (deliver-append ms ns rest)

-- A link on which nothing fails.
pub record IsWorking (link : Link) : Type 0 where
  pub bytes : ℕ → List ℕ
  pub draws : (i : ℕ) → link.nonce i ≡ drawn (bytes i)
  pub nonces : (i : ℕ) → length (bytes i) ≡ 12
  pub delivers : (i : ℕ) → link.delivery i ≡ taken
  pub takes : link.takes_done ≡ true

-- The pieces that a source yields: none is empty or too long, and only the last may be short.
abbrev pub IsPieces : List (List ℕ) → Type 0
IsPieces [] = Unit
IsPieces (c ∷ []) = (0 < length c) × (length c ≤ encryption_chunk_size)
IsPieces (c ∷ c' ∷ cs) = (length c ≡ encryption_chunk_size) × IsPieces (c' ∷ cs)

module _ (aead : Aead) (key : List ℕ) (max_bytes : ℕ) (link : Link) (works : IsWorking link) where
  open aead use {seal}

  pub sealed : ℕ → List ℕ → List ℕ
  sealed i chunk =
      be16 (i % 2 ^ 16) ++ (works.bytes i ++ seal key (works.bytes i) (be16 (i % 2 ^ 16)) chunk)

  seal_next_lem :
      (chunk : List ℕ) (i sent : ℕ)
      → 0 < length chunk
      → length chunk ≤ encryption_chunk_size
      → i < max_chunks
      → sent + length chunk ≤ max_bytes
      → sent + length chunk < 2 ^ 64
      → seal_next aead key max_bytes link chunk i sent ≡ ok (sealed i chunk, sent + length chunk)
  unfolding seal_next encrypt_chunk sealed
  seal_next_lem [] i sent h k m n p = absurd (omega arith)
  seal_next_lem (c ∷ cs) i sent h k m n p = rw (works.draws i, works.delivers i) (ground arith)

  -- A sealed chunk splits and opens as the chunk.
  parse-sealed :
      (i : ℕ) (chunk : List ℕ)
      → i < max_chunks
      → parse_chunk_message (sealed i chunk)
        ≡ ok (i, works.bytes i ++ seal key (works.bytes i) (be16 i) chunk)
  unfolding sealed encrypt_chunk
  parse-sealed i chunk h =
      let small : i % 2 ^ 16 ≡ i = omega arith in
      rw small (parse-encrypt_chunk aead key chunk i (works.bytes i) _ h (works.nonces i) refl).1

  module _ (d : Decoder) (disk : Disk) (writes : (w b : List ℕ) → disk.writes w b ≡ true) where
    -- The loop's variables after a chunk.
    abbrev pub next : Receiving d → List ℕ → Receiving d
    next s chunk = record {
      inflater = none;
      written = s.written ++ chunk;
      received_count = s.received_count + 1;
      received_bytes = s.received_bytes + length chunk;
      previous_chunk_len = some (length chunk);
    }

    receive_chunk-sealed :
        (s : Receiving d) (chunk : List ℕ)
        → s.inflater ≡ none
        → is_short s.previous_chunk_len ≡ false
        → 0 < length chunk
        → length chunk ≤ encryption_chunk_size
        → s.received_count < max_chunks
        → s.received_bytes + length chunk ≤ max_bytes
        → s.received_bytes + length chunk < 2 ^ 64
        → receive_chunk d disk aead key max_bytes s (sealed s.received_count chunk)
          ≡ ok (next s chunk)
    unfolding receive_chunk check_chunk open_chunk write_plain
    receive_chunk-sealed s chunk hi hs h k m n p =
        let i : ℕ = s.received_count in
        let ct : List ℕ = seal key (works.bytes i) (be16 i) chunk in
        rw (parse-sealed i chunk m) (
          ground (
            arith,
            length-append (works.bytes i) ct,
            aead.length-seal key (works.bytes i) (be16 i) chunk,
            works.nonces i,
            decrypt-encrypt_chunk aead key chunk i (works.bytes i) (works.nonces i),
            writes s.written chunk,
            hi,
          ))

    -- All of `advance s chunks` but its last length.
    abbrev pub advance : Receiving d → List (List ℕ) → Receiving d
    advance s [] = s
    advance s (c ∷ cs) = advance (next s c) cs

    pub record Advanced (s t : Receiving d) (chunks : List (List ℕ)) : Type 0 where
      pub no_inflater : t.inflater ≡ none
      pub wrote : t.written ≡ s.written ++ concat chunks
      pub counted : t.received_count ≡ s.received_count + length chunks
      pub totalled : t.received_bytes ≡ s.received_bytes + length (concat chunks)

    pub advance_lem :
        (s : Receiving d) (chunks : List (List ℕ))
        → s.inflater ≡ none
        → Advanced s (advance s chunks) chunks
    advance_lem s [] hi = record {
      no_inflater = hi;
      wrote = sym (append-nil s.written);
      counted = omega arith;
      totalled = omega arith;
    }
    advance_lem s (c ∷ cs) hi =
        let later = advance_lem (next s c) cs refl in
        record {
          no_inflater = later.no_inflater;
          wrote = later.wrote ∙ append_assoc s.written c (concat cs);
          counted = omega arith;
          totalled = omega (arith, length-append c (concat cs), later.totalled);
        }

    -- The messages of the chunks, which the receiver takes to `advance s chunks`, whatever follows.
    abbrev pub messages : ℕ → List (List ℕ) → List Message
    messages i [] = []
    messages i (c ∷ cs) = binary (sealed i c) ∷ messages (i + 1) cs

    pub send_chunks_lem :
        (chunks : List (List ℕ)) (i sent : ℕ)
        → IsPieces chunks
        → i + length chunks ≤ max_chunks
        → sent + length (concat chunks) ≤ max_bytes
        → sent + length (concat chunks) < 2 ^ 64
        → send_chunks aead key max_bytes link (map some chunks) i sent
          ≡ (messages i chunks, ok (i + length chunks, sent + length (concat chunks)))
    send_chunks_lem [] i sent h m n p = unfold send_chunks in ground arith
    send_chunks_lem (c ∷ []) i sent h m n p =
        let e = length-append c [] in
        send_chunks_step aead key max_bytes link [] c i sent
          (seal_next_lem c i sent h.0 h.1 (omega arith) (omega (arith, e)) (omega (arith, e)))
        ∙ (unfold send_chunks in ground (arith, e))
    send_chunks_lem (c ∷ c' ∷ cs) i sent h m n p =
        let e = length-append c (c' ++ concat cs) in
        send_chunks_step aead key max_bytes link (map some (c' ∷ cs)) c i sent (
          seal_next_lem c i sent (omega arith) (omega arith) (omega arith) (omega (arith, e))
            (omega (arith, e)))
        ∙ ap (after (binary (sealed i c))) (
            send_chunks_lem (c' ∷ cs) (i + 1) (sent + length c) h.1 (omega arith) (omega (arith, e))
              (omega (arith, e)))
        ∙ ground (arith, e)

    receive_step :
        (s : Receiving d) (b : List ℕ) (rest : Inbox) {s' : Receiving d}
        → receive_chunk d disk aead key max_bytes s b ≡ ok s'
        → receive_loop d disk aead key max_bytes s (message (binary b) rest)
          ≡ receive_loop d disk aead key max_bytes s' rest
    unfolding receive_loop
    receive_step s b rest e = rw e

    pub receive_loop-messages :
        (chunks : List (List ℕ)) (s : Receiving d) (rest : Inbox)
        → s.inflater ≡ none
        → is_short s.previous_chunk_len ≡ false
        → IsPieces chunks
        → s.received_count + length chunks ≤ max_chunks
        → s.received_bytes + length (concat chunks) ≤ max_bytes
        → s.received_bytes + length (concat chunks) < 2 ^ 64
        → receive_loop d disk aead key max_bytes s (deliver (messages s.received_count chunks) rest)
          ≡ receive_loop d disk aead key max_bytes (advance s chunks) rest
    receive_loop-messages [] s rest hi hs h m n p = refl
    receive_loop-messages (c ∷ []) s rest hi hs h m n p =
        let e = length-append c [] in
        receive_step s (sealed s.received_count c) rest (
          receive_chunk-sealed s c hi hs h.0 h.1 (omega arith) (omega (arith, e))
            (omega (arith, e)))
    receive_loop-messages (c ∷ c' ∷ cs) s rest hi hs h m n p =
        let e = length-append c (c' ++ concat cs) in
        receive_step s (sealed s.received_count c) _ (
          receive_chunk-sealed s c hi hs (omega arith) (omega arith) (omega arith)
            (omega (arith, e)) (omega (arith, e)))
        ∙ receive_loop-messages (c' ∷ cs) (next s c) rest refl (ground arith) h.1 (omega arith)
            (omega (arith, e)) (omega (arith, e))

    -- The trailer for the chunks received ends the loop.
    pub receive_loop-done :
        (s : Receiving d) (rest : Inbox)
        → s.inflater ≡ none
        → s.received_count ≤ max_chunks
        → s.received_bytes ≤ max_bytes
        → s.received_bytes < 2 ^ 64
        → receive_loop d disk aead key max_bytes s
            (message (text (done_text s.received_count s.received_bytes)) rest)
          ≡ ok (s, some (s.received_count, s.received_bytes))
    unfolding receive_loop receive_done write_rest
    receive_loop-done s rest hi m n p =
        rw (parse_done-done_text s.received_count s.received_bytes max_bytes m n p)
          (ground (arith, hi))
