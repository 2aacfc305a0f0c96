-- ===== src/Tor/Wire/RoundTrip.antt =====
-- What a peer frames, the other side reads.
use ptransfer_cli.Common.{
  ℕ, suc, ◌/◌, ◌%◌, ◌^◌, ◌≤◌, ◌≡◌, refl, ◌∙◌, ap, sym, List, [], ◌∷◌, ◌++◌, some, ltb, false,
  length, length-append, take-append, drop-append, Result, ok, err, >>=-ok, arith,
}
use ptransfer_cli.Common.Bytes.{be32, from_be32}
use ptransfer_cli.Transfer.{Message, text, binary}
use ptransfer_cli.Tor.Wire.{
  Error, End, eof, max_frame_bytes, send_frame, send_message, send_all, read_header, read_payload,
  is_string, recv_frame, recv_all,
}

ok_injective : {a b : List ℕ} (r : Result Error (List ℕ)) → r ≡ ok a → r ≡ ok b → a ≡ b
ok_injective (ok c) e f = cc
ok_injective (err c) e f = cc

abbrev bytes_of : Message → List ℕ
bytes_of (text payload) = payload
bytes_of (binary payload) = payload

abbrev kind_byte : Message → ℕ
kind_byte (text payload) = 1
kind_byte (binary payload) = 0

send_message-facts :
    (m : Message) (frame : List ℕ)
    → send_message m ≡ ok frame
    → (length (bytes_of m) ≤ max_frame_bytes)
      × (frame ≡ kind_byte m ∷ (be32 (length (bytes_of m)) ++ bytes_of m))
unfolding send_message send_frame
send_message-facts (text payload) frame h = ground arith
send_message-facts (binary payload) frame h = ground arith

from_be32-be32 :
    (n : ℕ)
    → n ≤ max_frame_bytes
    → from_be32 (n / 2 ^ 24 % 256) (n / 2 ^ 16 % 256) (n / 256 % 256) (n % 256) ≡ n
from_be32-be32 n h = omega arith

not_short : (payload rest : List ℕ) → ltb (length (payload ++ rest)) (length payload) ≡ false
not_short payload rest = ground (arith, length-append payload rest)

not_long : (n : ℕ) → n ≤ max_frame_bytes → ltb max_frame_bytes n ≡ false
not_long n h = ground arith

recv_frame-frame :
    (m : Message) (rest : List ℕ) (end : End)
    → length (bytes_of m) ≤ max_frame_bytes
    → recv_frame (kind_byte m ∷ (be32 (length (bytes_of m)) ++ (bytes_of m ++ rest))) end
      ≡ ok (some (m, rest))
unfolding recv_frame read_header read_payload is_string
recv_frame-frame (text payload) rest end h =
    rw
      (
        from_be32-be32 (length payload) h,
        not_long (length payload) h,
        not_short payload rest,
        take-append (length payload) payload rest refl,
        drop-append (length payload) payload rest refl,
      )
      refl
recv_frame-frame (binary payload) rest end h =
    rw
      (
        from_be32-be32 (length payload) h,
        not_long (length payload) h,
        not_short payload rest,
        take-append (length payload) payload rest refl,
        drop-append (length payload) payload rest refl,
      )
      refl

-- A conversation that one side could frame, up to a clean end of the stream, is read by the other as
-- the messages it was made of, texts as texts and chunks as chunks.
pub recv_all-send_all :
    (messages : List Message) (stream : List ℕ)
    → send_all messages ≡ ok stream
    → recv_all (suc (length messages)) stream eof ≡ ok messages
unfolding send_all recv_all recv_frame read_header
recv_all-send_all [] stream h = let same : stream ≡ [] = ground arith in rw same refl
recv_all-send_all (m ∷ ms) stream h =
    let (frame, framed, h₁) = >>=-ok (send_message m) _ h in
    let (frames, sent, h₂) = >>=-ok (send_all ms) _ h₁ in
    let (fits, shape) = send_message-facts m frame framed in
    let whole : stream ≡ kind_byte m ∷ (be32 (length (bytes_of m)) ++ (bytes_of m ++ frames)) =
      sym (ok_injective (ok (frame ++ frames)) refl h₂) ∙ ap (λ f. f ++ frames) shape in
    rw (whole, recv_frame-frame m frames eof fits, recv_all-send_all ms frames sent) refl
