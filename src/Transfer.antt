-- ===== src/Transfer.antt =====
-- src/transfer.rs: the messages of a transfer and the `DONE` trailer. The two sides stand in the
-- child modules `Sender` and `Receiver`.
pub mod Done
mod SendStep
pub mod Sender
pub mod Receiver
pub mod Exchange
pub mod Step
pub mod Soundness
pub mod Bounds
pub mod Delivery
pub mod Limits
mod Runs
pub mod RoundTrip
use ptransfer_cli.Common.{
  is_empty, ℕ, List, [], ◌∷◌, ◌++◌, Bool, ◌&&◌, not, ltb, leb, all, Option, Result, ok, err, ◌>>=◌,
  ◌>>◌, ensure, or_err,
}
use ptransfer_cli.Common.Bytes.{codes}
use ptransfer_cli.Common.Decimal.{decimal, parse_u64, is_digit}
use ptransfer_cli.Common.Text.{strip_prefix, split_once}

-- `TransferMessage`: `is_string` chooses the constructor.
pub data Message : Type 0 where
  text binary : List ℕ → Message

-- Every way that a bail of transfer.rs ends a transfer, and the failures of what it calls.
pub data Error : Type 0 where
  source_failed invalid_chunk_size chunk_index_range size_overflow size_limit : Error
  seal_failed send_failed stalled closed_before_ack ack_timeout : Error
  bad_done wrong_chunk_count wrong_byte_count unexpected_index short_chunk_inside : Error
  bad_chunk_length bad_chunk_message open_failed inflate_failed : Error
  create_failed write_failed closed_before_done incomplete flush_failed sync_failed : Error
  rename_failed : Error

abbrev pub max_chunks : ℕ
max_chunks = 0x10000

abbrev pub done_prefix : List ℕ
done_prefix = codes "DONE:"

abbrev pub ack : List ℕ
ack = codes "ACK"

-- `format!("DONE:{chunks_sent}:{sent}")`
unfoldable pub done_text : ℕ → ℕ → List ℕ
done_text chunks_sent sent = done_prefix ++ (decimal chunks_sent ++ b':' ∷ decimal sent)

-- The text is taken as its bytes: where `from_utf8_lossy` replaces a byte that is no UTF-8, both the
-- byte and what replaces it are outside ASCII, and either is refused here.
unfoldable pub parse_done : List ℕ → ℕ → Result Error (ℕ × ℕ)
parse_done message max_bytes = do
  values ← or_err (strip_prefix done_prefix message) bad_done
  (chunks, bytes) ← or_err (split_once b':' values) bad_done
  ensure (not (is_empty chunks)) bad_done
  ensure (not (is_empty bytes)) bad_done
  ensure (all is_digit chunks) bad_done
  ensure (all is_digit bytes) bad_done
  chunks ← or_err (parse_u64 chunks) bad_done
  bytes ← or_err (parse_u64 bytes) bad_done
  ensure (leb chunks max_chunks) bad_done
  ensure (leb bytes max_bytes) bad_done
  ok (chunks, bytes)
