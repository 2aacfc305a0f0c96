-- ===== src/NostrFile/Download/Named.antt =====
-- The name of the file that the receiver of download.rs accepts.
use ptransfer_cli.Common.{is_some, ℕ, ◌≡◌, sym, subst, List, Option, none, some, true, not, ◌||◌}
use ptransfer_cli.Common.Bytes.{bytes_eq}
use ptransfer_cli.Crypto.Aead.{Aead}
use ptransfer_cli.Wire.Flate.{Decoder}
use ptransfer_cli.NostrFile.Manifest
use ptransfer_cli.NostrFile.Manifest.{NostrFileManifest, check_window}
use ptransfer_cli.NostrFile.Control.{SenderMessage, manifest, avail, cancel}
use ptransfer_cli.NostrFile.Download.{
  bad_manifest, bad_window, other_file, Download, new, is_ignored, adopted_ring, accept_manifest,
  take_manifest, take_message, announced, handle,
}
use ptransfer_cli.NostrFile.Download.Cycle.{cycle}
use ptransfer_cli.NostrFile.Download.Heard.{Keeps, after-Keeps, ensured-Keeps, unless-Keeps}
use ptransfer_cli.NostrFile.Download.Reached.{
  Reachable, starts, steps, handles, joins, cycles, Reachable-IsConsistent, fetch-IsOver,
  by_manifest, Ends,
}

module _ (to_hex : ℕ → List ℕ) (expected_name : List ℕ) where
  abbrev HasName : Option NostrFileManifest → Type 0
  HasName none = Unit
  HasName (some m) = bytes_eq m.file_name expected_name ≡ true

  abbrev IsNamed : Download → Type 0
  IsNamed s = HasName s.described

  take_manifest-Named :
      (s : Download) (n : ℕ) (m : NostrFileManifest) (pubkey now : ℕ)
      → IsNamed s
      → Keeps IsNamed (take_manifest to_hex expected_name s n m pubkey now)
  unfolding take_manifest accept_manifest
  take_manifest-Named s n m pubkey now w =
      unless-Keeps IsNamed (is_some s.described || not (bytes_eq m.pubkey (to_hex pubkey))) s
        (accept_manifest to_hex expected_name s n m pubkey now) w
        (λ fresh. after-Keeps IsNamed (Manifest.validate m) bad_manifest _ (λ valid.
          after-Keeps IsNamed (check_window m now) bad_window _ (λ t.
            ensured-Keeps IsNamed (bytes_eq m.file_name expected_name) other_file _
              (λ agreed. agreed))))

  announced-Named :
      (s : Download) (left : Option (List (List ℕ))) (n upto : ℕ) (chars : List ℕ)
      (gens : List (ℕ × ℕ)) (ctl : List (List ℕ)) (now : ℕ)
      → IsNamed s
      → IsNamed (announced to_hex expected_name s left n upto chars gens ctl now).0
  announced-Named s none n upto chars gens ctl now w = w
  announced-Named s (some ring) n upto chars gens ctl now w = w

  take_message-Named :
      (s : Download) (msg : SenderMessage) (pubkey now : ℕ)
      → IsNamed s
      → Keeps IsNamed (take_message to_hex expected_name s msg pubkey now)
  unfolding take_message
  take_message-Named s (manifest n m) pubkey now w = take_manifest-Named s n m pubkey now w
  take_message-Named s (avail n upto relays chars gens ctl) pubkey now w =
      announced-Named s (adopted_ring s.ring relays) n upto chars gens ctl now w
  take_message-Named s (cancel n) pubkey now w = tt

  handle-Named :
      (normalize : List ℕ → Option (List ℕ)) (s : Download) (msg : Option SenderMessage)
      (pubkey now : ℕ)
      → IsNamed s
      → Keeps IsNamed (handle to_hex expected_name normalize s msg pubkey now)
  unfolding handle
  handle-Named normalize s none pubkey now w = w
  handle-Named normalize s (some msg) pubkey now w =
      unless-Keeps IsNamed (is_ignored to_hex expected_name normalize s msg pubkey) s
        (take_message to_hex expected_name s msg pubkey now) w
        (λ heard. take_message-Named s msg pubkey now w)

module _ (aead : Aead) (key transfer_id : List ℕ) (d : Decoder) (file_hash : List ℕ → List ℕ)
    (to_hex : ℕ → List ℕ) (expected_name : List ℕ) (normalize : List ℕ → Option (List ℕ)) where
  Reachable-Named :
      {s : Download}
      → Reachable aead key transfer_id d file_hash to_hex expected_name normalize s
      → IsNamed to_hex expected_name s
  unfolding new cycle Ends
  Reachable-Named starts = tt
  Reachable-Named (steps {s = s} r (handles msg pubkey now e)) =
      subst (Keeps (IsNamed to_hex expected_name)) e
        (handle-Named to_hex expected_name normalize s msg pubkey now (Reachable-Named r))
  Reachable-Named (steps r joins) = Reachable-Named r
  Reachable-Named (steps {s = s} r (cycles now finished answers sends h)) =
      let (m, e, (more, same)) =
        by_manifest aead key transfer_id d file_hash to_hex expected_name normalize s now finished
          answers sends s.described h in
      let (e', w) =
        fetch-IsOver aead key transfer_id d file_hash to_hex expected_name normalize s m now
          finished answers
          (
            e,
            Reachable-IsConsistent aead key transfer_id d file_hash to_hex expected_name normalize
                r,
          ) in
      let before : HasName to_hex expected_name (some m) =
        subst (HasName to_hex expected_name) e (Reachable-Named r) in
      subst (IsNamed to_hex expected_name) (sym same)
        (subst (HasName to_hex expected_name) (sym e') before)

  -- A manifest taken bears the name that the code described.
  pub Reachable-named :
      {s : Download} {m : NostrFileManifest}
      → Reachable aead key transfer_id d file_hash to_hex expected_name normalize s
      → s.described ≡ some m
      → bytes_eq m.file_name expected_name ≡ true
  Reachable-named r e = subst (HasName to_hex expected_name) e (Reachable-Named r)
