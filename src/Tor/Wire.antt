-- ===== src/Tor/Wire.antt =====
-- src/tor/wire.rs: frames on a Tor stream. A stream is read as the bytes that arrive and how it ends;
-- `read` and `read_exact` fill their buffers from it, in however many pieces it hands them out.
pub mod RoundTrip
mod Runs
use ptransfer_cli.Common.{
  ℕ, zero, suc, ◌+◌, List, [], ◌∷◌, ◌++◌, Option, none, some, Bool, true, false, not, ltb, length,
  take, drop, Result, ok, err, ◌>>=◌, ◌>>◌, ensure,
}
use ptransfer_cli.Common.Bytes.{be32, from_be32}
use ptransfer_cli.Crypto.Chunk.{encryption_chunk_size, overhead_per_chunk}
use ptransfer_cli.Transfer.{Message, text, binary}

pub data Error : Type 0 where
  frame_too_long closed_mid_frame read_failed announced_too_long unknown_kind short_payload
        closed_in_handshake not_text :
      Error

-- How a stream ends: with an EOF, with a disconnect (`is_disconnect`), or with another error.
pub data End : Type 0 where
  eof disconnected failed : End

abbrev pub kind_binary : ℕ
kind_binary = 0

abbrev pub kind_text : ℕ
kind_text = 1

abbrev pub max_frame_bytes : ℕ
max_frame_bytes = encryption_chunk_size + overhead_per_chunk

-- The bytes that `send_frame` writes.
unfoldable pub send_frame : ℕ → List ℕ → Result Error (List ℕ)
send_frame kind payload = do
  ensure (not (ltb max_frame_bytes (length payload))) frame_too_long
  ok (kind ∷ (be32 (length payload) ++ payload))

-- `send` of the transfer's messages.
unfoldable pub send_message : Message → Result Error (List ℕ)
send_message (binary payload) = send_frame kind_binary payload
send_message (text payload) = send_frame kind_text payload

unfoldable pub mid_frame : {A : Type 0} → End → Result Error A
mid_frame eof = err closed_mid_frame
mid_frame disconnected = err closed_mid_frame
mid_frame failed = err read_failed

-- A header and the bytes after it, or `none` where the peer closed before any of it.
unfoldable pub read_header : List ℕ → End → Result Error (Option (List ℕ × List ℕ))
read_header [] eof = ok none
read_header [] disconnected = ok none
read_header [] failed = err read_failed
read_header (k ∷ a ∷ b ∷ c ∷ d ∷ rest) end = ok (some (k ∷ a ∷ b ∷ c ∷ d ∷ [], rest))
read_header (k ∷ few) end = mid_frame end

-- The kind byte of a header: whether the frame is a text.
unfoldable pub is_string : ℕ → Result Error Bool
is_string zero = ok false
is_string (suc zero) = ok true
is_string (suc (suc other)) = err unknown_kind

abbrev pub message_of : Bool → List ℕ → Message
message_of true payload = text payload
message_of false payload = binary payload

-- The length that a header announces.
abbrev pub announced : List ℕ → ℕ
announced (k ∷ a ∷ b ∷ c ∷ d ∷ rest) = from_be32 a b c d
announced header = 0

abbrev pub kind_of : List ℕ → ℕ
kind_of [] = 0
kind_of (k ∷ rest) = k

-- The frame behind a header, and what follows it.
unfoldable pub read_payload : List ℕ → List ℕ → Result Error (Option (Message × List ℕ))
read_payload header rest = do
  let len = announced header
  ensure (not (ltb max_frame_bytes len)) announced_too_long
  string ← is_string (kind_of header)
  ensure (not (ltb (length rest) len)) short_payload
  ok (some (message_of string (take len rest), drop len rest))

unfoldable pub recv_frame : List ℕ → End → Result Error (Option (Message × List ℕ))
recv_frame stream end = do
  header ← read_header stream end
  elim header [ none ↦ ok none | some (bytes, rest) ↦ read_payload bytes rest ]

-- The frames of a stream up to its clean end, for `rounds` frames at most.
unfoldable pub recv_all : ℕ → List ℕ → End → Result Error (List Message)
recv_all zero stream end = ok []
recv_all (suc rounds) stream end = do
  frame ← recv_frame stream end
  elim frame [
    | none ↦ ok []
    | some (message, rest) ↦ do messages ← recv_all rounds rest end; ok (message ∷ messages)
  ]

unfoldable pub send_all : List Message → Result Error (List ℕ)
send_all [] = ok []
send_all (message ∷ messages) = do
  frame ← send_message message
  frames ← send_all messages
  ok (frame ++ frames)
