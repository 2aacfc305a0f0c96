-- ===== src/Transfer/SendStep.antt =====
-- One round of the loop of `run_sender` of transfer.rs.
use ptransfer_cli.Common.{ℕ, ◌+◌, ◌≡◌, List, [], ◌∷◌, Option, some, ok, err}
use ptransfer_cli.Crypto.Aead.{Aead}
use ptransfer_cli.Transfer.{binary, Error}
use ptransfer_cli.Transfer.Sender.{Link, after, seal_next, send_chunks}

module _ (aead : Aead) (key : List ℕ) (max_bytes : ℕ) (link : Link)
    (source : List (Option (List ℕ))) (c : List ℕ) (i sent : ℕ) where
  pub send_chunks_step :
      {enc : List ℕ} {total : ℕ}
      → seal_next aead key max_bytes link c i sent ≡ ok (enc, total)
      → send_chunks aead key max_bytes link (some c ∷ source) i sent
        ≡ after (binary enc) (send_chunks aead key max_bytes link source (i + 1) total)
  unfolding send_chunks
  send_chunks_step e = rw (e, send_chunks)

  pub send_chunks_stop :
      {e : Error}
      → seal_next aead key max_bytes link c i sent ≡ err e
      → send_chunks aead key max_bytes link (some c ∷ source) i sent ≡ ([], err e)
  unfolding send_chunks
  send_chunks_stop e = rw (e, send_chunks)
