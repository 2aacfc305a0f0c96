-- ===== src/NostrFile/Download/Verified.antt =====
-- What the receiver of download.rs hands over.
use ptransfer_cli.Common.{
  ℕ, ◌≤◌, ◌≡◌, subst, ◌∙◌, List, [], ◌∷◌, Option, none, some, Bool, true, length, ok, arith,
}
use ptransfer_cli.Common.Bytes.{bytes_eq}
use ptransfer_cli.Crypto.Aead.{Aead}
use ptransfer_cli.Wire.Flate.{Decoder}
use ptransfer_cli.NostrFile.Manifest
use ptransfer_cli.NostrFile.Manifest.{NostrFileManifest}
use ptransfer_cli.NostrFile.Control.Reply.{ReceiverMessage}
use ptransfer_cli.NostrFile.Handover.Checked.{verify_file-checked}
use ptransfer_cli.NostrFile.Download.{Download}
use ptransfer_cli.NostrFile.Download.Cycle.{fetch, cycle}
use ptransfer_cli.NostrFile.Download.Holding.{held}
use ptransfer_cli.NostrFile.Download.Consistent.{Describes}
use ptransfer_cli.NostrFile.Download.Reached.{
  Reachable, Reachable-IsConsistent, fetch-IsOver, by_manifest, Ends,
}

held-le : (chunks : List (Option (List ℕ))) → held chunks ≤ length chunks
unfolding held
held-le [] = omega arith
held-le (none ∷ rest) = omega (arith, held-le rest)
held-le (some piece ∷ rest) = omega (arith, held-le rest)

module _ (aead : Aead) (key transfer_id : List ℕ) (d : Decoder) (file_hash : List ℕ → List ℕ)
    (to_hex : ℕ → List ℕ) (expected_name : List ℕ) (normalize : List ℕ → Option (List ℕ)) where
  -- Whatever the sender says and the relays serve, a file is handed over only when every piece of a
  -- manifest that passed its checks is held, and it has the size and the hash of that manifest.
  pub cycle-verified :
      {s s' : Download} {ack : ReceiverMessage} {contents : List ℕ} (now finished : ℕ)
      (answers : List (ℕ × List (ℕ × List ℕ))) (sends : Bool)
      → Reachable aead key transfer_id d file_hash to_hex expected_name normalize s
      → cycle aead key transfer_id d file_hash s now finished answers sends
        ≡ ok (s', ack, some contents)
      → (m : NostrFileManifest) × (s.described ≡ some m)
        × (s'.described ≡ some m)
        × (Manifest.validate m ≡ ok tt)
        × (held (fetch aead key transfer_id s m now finished answers).chunks ≡ m.total_chunks)
        × (length contents ≡ m.file_size)
        × (bytes_eq (file_hash contents) m.file_hash ≡ true)
  unfolding cycle Ends
  cycle-verified {s = s} now finished answers sends r h =
      let w =
        Reachable-IsConsistent aead key transfer_id d file_hash to_hex expected_name normalize r in
      let (m, e, (no_more, verified, same)) =
        by_manifest aead key transfer_id d file_hash to_hex expected_name normalize s now finished
          answers sends s.described h in
      let t = fetch aead key transfer_id s m now finished answers in
      let (e', (described, done, c, p, inside)) =
        fetch-IsOver aead key transfer_id d file_hash to_hex expected_name normalize s m now
          finished answers (e, w) in
      let (valid, len, opened) =
        subst (λ o. Describes aead key transfer_id o t.chunks) e' described in
      let (size, hash) = verify_file-checked d file_hash m t.chunks verified in
      (m, e, same ∙ e', valid, ground (arith, no_more, done, len, held-le t.chunks), size, hash)
