-- ===== src/Transfer/Sender.antt =====
-- `run_sender` and `wait_for_ack` of src/transfer.rs. A run returns what was handed to the transport
-- and how it ended; the source, the random numbers, the transport and the receiver's messages are
-- its arguments.
use ptransfer_cli.Common.{
  ℕ, is_empty, ◌+◌, ◌%◌, ◌^◌, List, [], ◌∷◌, ◌++◌, ◌||◌, with_err, Bool, not, Option, none, some,
  ltb, leb, if◌then◌else◌, length, Result, ok, err, ◌>>=◌, ◌>>◌, ensure,
}
use ptransfer_cli.Common.Bytes.{bytes_eq}
use ptransfer_cli.Crypto.Aead.{Aead, Nonce}
use ptransfer_cli.Crypto.Chunk.{encryption_chunk_size, encrypt_chunk}
use ptransfer_cli.Transfer.{Message, text, binary, Error, max_chunks, done_text, ack}

-- What became of a `send_binary` under the stall window.
pub data Delivery : Type 0 where
  taken failed timed_out : Delivery

-- What the peer sends, in order, up to the close of the transport or to a silence that outlasts
-- the window of whoever waits.
pub data Inbox : Type 0 where
  message : Message → Inbox → Inbox
  closed silent : Inbox

-- The surroundings of a sender: the random source and the transport at each chunk, whether the
-- transport takes the trailer, and what comes back after it.
pub record Link : Type 0 where
  pub nonce : ℕ → Nonce
  pub delivery : ℕ → Delivery
  pub takes_done : Bool
  pub replies : Inbox

unfoldable pub wait_for_ack : Inbox → Result Error (Unit {0})
wait_for_ack (message (text t) rest) =
    let later = wait_for_ack rest in if bytes_eq t ack then ok tt else later
wait_for_ack (message (binary b) rest) = wait_for_ack rest
wait_for_ack closed = err Error.closed_before_ack
wait_for_ack silent = err Error.ack_timeout

-- A run: the messages handed over, and the result.
abbrev pub Run : Type 0 → Type 0
Run A = List Message × Result Error A

abbrev pub fail : {A : Type 0} → Error → Run A
fail e = ([], err e)

-- One more message in front of a run.
abbrev pub after : {A : Type 0} → Message → Run A → Run A
after m (ms, r) = (m ∷ ms, r)

abbrev delivered : Delivery → Result Error (Unit {0})
delivered taken = ok tt
delivered failed = err Error.send_failed
delivered timed_out = err Error.stalled

module _ (aead : Aead) (key : List ℕ) (max_bytes : ℕ) (link : Link) where
  -- The tests on a chunk, and its seal: the message, and the byte count after it.
  unfoldable pub seal_next : List ℕ → ℕ → ℕ → Result Error (List ℕ × ℕ)
  seal_next chunk chunks_sent sent = do
    ensure (not (is_empty chunk || ltb encryption_chunk_size (length chunk)))
        Error.invalid_chunk_size
    ensure (not (leb max_chunks chunks_sent)) Error.chunk_index_range
    let next_sent = sent + length chunk
    ensure (ltb next_sent (2 ^ 64)) Error.size_overflow
    ensure (not (ltb max_bytes next_sent)) Error.size_limit
    let index = chunks_sent % 2 ^ 16
    encrypted ←
        with_err (encrypt_chunk aead key chunk index (link.nonce chunks_sent)) Error.seal_failed
    delivered (link.delivery chunks_sent)
    ok (encrypted, next_sent)

  -- The source yields a chunk, or fails (`none`), or is at its end.
  unfoldable pub send_chunks : List (Option (List ℕ)) → ℕ → ℕ → Run (ℕ × ℕ)
  send_chunks [] chunks_sent sent = ([], ok (chunks_sent, sent))
  send_chunks (none ∷ source) chunks_sent sent = fail Error.source_failed
  send_chunks (some chunk ∷ source) chunks_sent sent = elim (seal_next chunk chunks_sent sent) [
    | err e ↦ fail e
    | ok (encrypted, next_sent) ↦
        after (binary encrypted) (send_chunks source (chunks_sent + 1) next_sent)
  ]

  -- The trailer and the wait for its acknowledgment.
  unfoldable pub send_done : ℕ → ℕ → Run (Unit {0})
  send_done chunks_sent sent =
      if link.takes_done
      then (text (done_text chunks_sent sent) ∷ [], wait_for_ack link.replies)
      else fail Error.send_failed

  finish_run : Run (ℕ × ℕ) → Run (Unit {0})
  finish_run (ms, err e) = (ms, err e)
  finish_run (ms, ok (chunks_sent, sent)) =
      let (trailer, r) = send_done chunks_sent sent in (ms ++ trailer, r)

  unfoldable pub run_sender : List (Option (List ℕ)) → Run (Unit {0})
  unfolding finish_run
  run_sender source = finish_run (send_chunks source 0 0)
