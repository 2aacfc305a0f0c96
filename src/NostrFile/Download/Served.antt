-- ===== src/NostrFile/Download/Served.antt =====
-- Where the pieces come from that the receiver of download.rs holds.
use ptransfer_cli.Common.{
  is_some, ℕ, ◌≡◌, refl, sym, subst, List, Option, none, some, ◌⊎◌, inl, inr, not, ◌||◌, length,
  get_or, ok,
}
use ptransfer_cli.Common.Bytes.{bytes_eq}
use ptransfer_cli.Crypto.Aead.{Aead}
use ptransfer_cli.Wire.Flate.{Decoder}
use ptransfer_cli.NostrFile.Codec.{open_piece}
use ptransfer_cli.NostrFile.Manifest
use ptransfer_cli.NostrFile.Manifest.{NostrFileManifest, check_window}
use ptransfer_cli.NostrFile.Control.{SenderMessage, manifest, avail, cancel}
use ptransfer_cli.NostrFile.Download.{
  bad_manifest, bad_window, other_file, Download, new, is_ignored, adopted_ring, accept_manifest,
  take_manifest, take_message, announced, handle,
}
use ptransfer_cli.NostrFile.Download.Cycle.{fetch, cycle}
use ptransfer_cli.NostrFile.Download.Consistent.{Describes}
use ptransfer_cli.NostrFile.Download.Contents.{
  HasAnswer, Holds, HoldsOf, IsFrom, HoldsOf-more, fetch-Holds,
}
use ptransfer_cli.NostrFile.Download.Holding.{get_or-replicate}
use ptransfer_cli.NostrFile.Download.Heard.{Keeps, after-Keeps, ensured-Keeps, unless-Keeps}
use ptransfer_cli.NostrFile.Download.Reached.{
  Reachable, starts, steps, handles, joins, cycles, Reachable-IsConsistent, fetch-IsOver,
  by_manifest, Ends,
}

module _ (aead : Aead) (key transfer_id : List ℕ) where
  module _ (to_hex : ℕ → List ℕ) (expected_name : List ℕ) (P : ℕ → List ℕ → Type 0) where
    take_manifest-IsFrom :
        (s : Download) (n : ℕ) (m : NostrFileManifest) (pubkey now : ℕ)
        → IsFrom aead key transfer_id P s
        → Keeps
            (IsFrom aead key transfer_id P)
            (take_manifest to_hex expected_name s n m pubkey now)
    unfolding take_manifest accept_manifest
    take_manifest-IsFrom s n m pubkey now w =
        unless-Keeps (IsFrom aead key transfer_id P)
          (is_some s.described || not (bytes_eq m.pubkey (to_hex pubkey))) s
          (accept_manifest to_hex expected_name s n m pubkey now) w
          (λ fresh.
            after-Keeps (IsFrom aead key transfer_id P) (Manifest.validate m) bad_manifest _
              (λ valid.
                after-Keeps (IsFrom aead key transfer_id P) (check_window m now) bad_window _ (λ t.
                  ensured-Keeps (IsFrom aead key transfer_id P) (bytes_eq m.file_name expected_name)
                    other_file _
                    (λ agreed i piece h. absurd (get_or-replicate m.total_chunks i piece h)))))

    announced-IsFrom :
        (s : Download) (left : Option (List (List ℕ))) (n upto : ℕ) (chars : List ℕ)
        (gens : List (ℕ × ℕ)) (ctl : List (List ℕ)) (now : ℕ)
        → IsFrom aead key transfer_id P s
        → IsFrom aead key transfer_id P
            (announced to_hex expected_name s left n upto chars gens ctl now).0
    announced-IsFrom s none n upto chars gens ctl now w = w
    announced-IsFrom s (some ring) n upto chars gens ctl now w = w

    take_message-IsFrom :
        (s : Download) (msg : SenderMessage) (pubkey now : ℕ)
        → IsFrom aead key transfer_id P s
        → Keeps (IsFrom aead key transfer_id P) (take_message to_hex expected_name s msg pubkey now)
    unfolding take_message
    take_message-IsFrom s (manifest n m) pubkey now w = take_manifest-IsFrom s n m pubkey now w
    take_message-IsFrom s (avail n upto relays chars gens ctl) pubkey now w =
        announced-IsFrom s (adopted_ring s.ring relays) n upto chars gens ctl now w
    take_message-IsFrom s (cancel n) pubkey now w = tt

    handle-IsFrom :
        (normalize : List ℕ → Option (List ℕ)) (s : Download) (msg : Option SenderMessage)
        (pubkey now : ℕ)
        → IsFrom aead key transfer_id P s
        → Keeps
            (IsFrom aead key transfer_id P)
            (handle to_hex expected_name normalize s msg pubkey now)
    unfolding handle
    handle-IsFrom normalize s none pubkey now w = w
    handle-IsFrom normalize s (some msg) pubkey now w =
        unless-Keeps (IsFrom aead key transfer_id P)
          (is_ignored to_hex expected_name normalize s msg pubkey) s
          (take_message to_hex expected_name s msg pubkey now) w
          (λ heard. take_message-IsFrom s msg pubkey now w)

module _ (aead : Aead) (key transfer_id : List ℕ) (d : Decoder) (file_hash : List ℕ → List ℕ)
    (to_hex : ℕ → List ℕ) (expected_name : List ℕ) (normalize : List ℕ → Option (List ℕ)) where
  -- In a cycle on the way to the state, a relay answered with this content for this index.
  abbrev pub WasServed :
      {s : Download}
      → Reachable aead key transfer_id d file_hash to_hex expected_name normalize s
      → ℕ
      → List ℕ
      → Type 0
  WasServed starts i content = ⊥
  WasServed (steps r (handles msg pubkey now e)) i content = WasServed r i content
  WasServed (steps r joins) i content = WasServed r i content
  WasServed (steps r (cycles now finished answers sends e)) i content =
      WasServed r i content ⊎ HasAnswer i content answers

  Reachable-IsFrom :
      {s : Download}
      (r : Reachable aead key transfer_id d file_hash to_hex expected_name normalize s)
      → IsFrom aead key transfer_id (WasServed r) s
  unfolding new cycle Ends
  Reachable-IsFrom starts = refl
  Reachable-IsFrom (steps {s = s} r (handles msg pubkey now e)) =
      subst (Keeps (IsFrom aead key transfer_id (WasServed r))) e (
        handle-IsFrom aead key transfer_id to_hex expected_name (WasServed r) normalize s msg pubkey
          now (Reachable-IsFrom r))
  Reachable-IsFrom (steps r joins) = Reachable-IsFrom r
  Reachable-IsFrom (steps {s = s} r (cycles now finished answers sends h)) =
      let Q : ℕ → List ℕ → Type 0 =
        λ i content. WasServed r i content ⊎ HasAnswer i content answers in
      let (m, e, (more, same)) =
        by_manifest aead key transfer_id d file_hash to_hex expected_name normalize s now finished
          answers sends s.described h in
      let consistent =
        Reachable-IsConsistent aead key transfer_id d file_hash to_hex expected_name normalize r in
      let (e', w) =
        fetch-IsOver aead key transfer_id d file_hash to_hex expected_name normalize s m now
          finished answers (e, consistent) in
      let before : Holds aead key transfer_id Q m s.chunks =
        subst (λ o. HoldsOf aead key transfer_id Q o s.chunks) e
          (HoldsOf-more aead key transfer_id (WasServed r) Q (λ i c x. inl x) s.described s.chunks
            (Reachable-IsFrom r)) in
      let after =
        fetch-Holds aead key transfer_id Q m s now finished answers (λ i c x. inr x) before in
      subst (IsFrom aead key transfer_id Q) (sym same) (
        subst
          (λ o.
            HoldsOf aead key transfer_id Q o
              (fetch aead key transfer_id s m now finished answers).chunks)
          (sym e') after)

  -- Whatever the sender says and the relays serve, the manifest taken passed its checks, there is a
  -- place for each of its pieces, and a piece held is what a content that a relay served for its index,
  -- in a cycle so far, opened to under that index.
  pub Reachable-WasServed :
      {s : Download} {m : NostrFileManifest} (i : ℕ) {piece : List ℕ}
      (r : Reachable aead key transfer_id d file_hash to_hex expected_name normalize s)
      → s.described ≡ some m
      → get_or s.chunks i none ≡ some piece
      → (Manifest.validate m ≡ ok tt)
        × (length s.chunks ≡ m.total_chunks)
        × ((content : List ℕ) × WasServed r i content
            × (open_piece aead key transfer_id m.total_chunks m.chunk_size i content ≡ some piece))
  Reachable-WasServed {s = s} i {piece = piece} r e h =
      let (described, done, c, p, inside) =
        Reachable-IsConsistent aead key transfer_id d file_hash to_hex expected_name normalize r in
      let (valid, len, opened) =
        subst (λ o. Describes aead key transfer_id o s.chunks) e described in
      let held =
        subst (λ o. HoldsOf aead key transfer_id (WasServed r) o s.chunks) e (Reachable-IsFrom r) in
      (valid, len, held i piece h)
