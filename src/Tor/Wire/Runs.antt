-- ===== src/Tor/Wire/Runs.antt =====
-- Frames of a short conversation.
use ptransfer_cli.Common.{ℕ, ◌≡◌, refl, List, [], ◌∷◌, ok, err}
use ptransfer_cli.Common.Bytes.{codes}
use ptransfer_cli.Transfer.{Message, text, binary}
use ptransfer_cli.Tor.Wire.{
  eof, disconnected, closed_mid_frame, short_payload, unknown_kind, send_frame, send_message,
  send_all, read_header, mid_frame, is_string, read_payload, recv_frame, recv_all,
}
use ptransfer_cli.Tor.Wire.RoundTrip.{recv_all-send_all}

abbrev conversation : List Message
conversation = binary (9 ∷ 8 ∷ []) ∷ text (codes "ACK") ∷ []

abbrev framed : List ℕ
framed = 0 ∷ 0 ∷ 0 ∷ 0 ∷ 2 ∷ 9 ∷ 8 ∷ 1 ∷ 0 ∷ 0 ∷ 0 ∷ 3 ∷ codes "ACK"

conversation-framed : send_all conversation ≡ ok framed
unfolding send_all send_message send_frame
conversation-framed = refl

recv_all-send_all_example : recv_all 3 framed eof ≡ ok conversation
recv_all-send_all_example = recv_all-send_all conversation framed conversation-framed

refused_frames :
    (recv_frame (0 ∷ 0 ∷ []) disconnected ≡ err closed_mid_frame)
    × (recv_frame (0 ∷ 0 ∷ 0 ∷ 0 ∷ 2 ∷ 9 ∷ []) eof ≡ err short_payload)
    × (recv_frame (7 ∷ 0 ∷ 0 ∷ 0 ∷ 0 ∷ []) eof ≡ err unknown_kind)
unfolding recv_frame read_header read_payload is_string mid_frame
refused_frames = (refl, refl, refl)
