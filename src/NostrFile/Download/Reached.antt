-- ===== src/NostrFile/Download/Reached.antt =====
-- The receiver's loop of download.rs: any sequence of messages and fetch cycles.
use ptransfer_cli.Common.{
  ℕ, ◌≤◌, ◌<◌, ◌≡◌, refl, sym, subst, List, [], Option, none, some, Bool, true, false, not, ltb,
  length, All, if◌then◌else◌, Result, ok, err, ok_injective, some_injective, ap, arith,
}
use ptransfer_cli.Crypto.Aead.{Aead}
use ptransfer_cli.Wire.Flate.{Decoder}
use ptransfer_cli.NostrFile.Manifest.{NostrFileManifest}
use ptransfer_cli.NostrFile.Control.{SenderMessage}
use ptransfer_cli.NostrFile.Control.Reply.{ReceiverMessage}
use ptransfer_cli.NostrFile.Handover
use ptransfer_cli.NostrFile.Handover.{verify_file}
use ptransfer_cli.NostrFile.Download.{Download, new, handle}
use ptransfer_cli.NostrFile.Download.Cycle.{
  fetch, hand_over, not_verified_err, cycle_over, cycle, tried_from, ack_failed, no_manifest,
}
use ptransfer_cli.NostrFile.Download.Holding.{held}
use ptransfer_cli.NostrFile.Download.Consistent.{
  IsConsistent, IsOver, take_answers-IsOver, mark_tried-IsOver,
}
use ptransfer_cli.NostrFile.Download.Heard.{IsKept, handle-IsKept}

module _ (aead : Aead) (key transfer_id : List ℕ) (d : Decoder) (file_hash : List ℕ → List ℕ)
    (to_hex : ℕ → List ℕ) (expected_name : List ℕ) (normalize : List ℕ → Option (List ℕ)) where
  -- What happens to the state: a message is handled, the relays to join are taken over, and a cycle
  -- ends without the file.
  pub data Step : Download → Download → Type 0 where
    handles :
        {s s' : Download} {due : Bool} (msg : Option SenderMessage) (pubkey now : ℕ)
        → handle to_hex expected_name normalize s msg pubkey now ≡ ok (s', due)
        → Step s s'
    joins : {s : Download} → Step s (record s { adopt_ctl = [] })
    cycles :
        {s s' : Download} {ack : ReceiverMessage} (now finished : ℕ)
        (answers : List (ℕ × List (ℕ × List ℕ))) (sends : Bool)
        → cycle aead key transfer_id d file_hash s now finished answers sends ≡ ok (s', ack, none)
        → Step s s'

  pub data Reachable : Download → Type 0 where
    starts : Reachable new
    steps : {s t : Download} → Reachable s → Step s t → Reachable t

  new-IsConsistent : IsConsistent aead key transfer_id new
  unfolding new held
  new-IsConsistent = (refl, refl, omega arith, refl, tt)

  pub fetch-IsOver :
      (s : Download) (m : NostrFileManifest) (now finished : ℕ)
      (answers : List (ℕ × List (ℕ × List ℕ)))
      → IsOver aead key transfer_id m s
      → IsOver aead key transfer_id m (fetch aead key transfer_id s m now finished answers)
  unfolding fetch
  fetch-IsOver s m now finished answers w =
      mark_tried-IsOver aead key transfer_id m _ finished (tried_from s now 0 s.upto)
        (take_answers-IsOver aead key transfer_id m (tried_from s now 0 s.upto) _ answers w)

  -- The two ways a cycle ends well, from its tests and what is made of the pieces.
  unfoldable pub Ends :
      Bool → Download → Result Handover.Error (List ℕ) → Download → Option (List ℕ) → Type 0
  Ends more t verified s' none = (more ≡ true) × (s' ≡ t)
  Ends more t verified s' (some contents) =
      (more ≡ false) × (verified ≡ ok contents) × (s'.described ≡ t.described)

  cycle_over-Ends :
      (sends more : Bool) (t : Download) (sent : ReceiverMessage)
      (verified : Result Handover.Error (List ℕ)) {s' : Download} {ack : ReceiverMessage}
      (out : Option (List ℕ))
      → (if not sends
          then err ack_failed
          else if more
          then ok (t, sent, none)
          else hand_over aead key transfer_id d file_hash t sent
              (not_verified_err aead key transfer_id d file_hash verified))
        ≡ ok (s', ack, out)
      → Ends more t verified s' out
  unfolding Ends
  cycle_over-Ends false more t sent verified out h = cc
  cycle_over-Ends true true t sent verified none h = (refl, cc)
  cycle_over-Ends true true t sent verified (some contents) h = cc
  cycle_over-Ends true false t sent (err e) out h = cc
  cycle_over-Ends true false t sent (ok contents) none h = cc
  cycle_over-Ends true false t sent (ok contents) (some c) h =
      let handed = ok_injective h in
      (refl, ap ok (some_injective (ap (λ q. q.2) handed)), sym (ap (λ q. q.0.described) handed))

  -- A cycle that ends well is over a manifest.
  pub by_manifest :
      (s : Download) (now finished : ℕ) (answers : List (ℕ × List (ℕ × List ℕ))) (sends : Bool)
      (described : Option NostrFileManifest) {s' : Download} {ack : ReceiverMessage}
      {out : Option (List ℕ)}
      → elim described [
        | none ↦ err no_manifest
        | some m ↦ cycle_over aead key transfer_id d file_hash s m now finished answers sends
      ]
        ≡ ok (s', ack, out)
      → (m : NostrFileManifest) × (described ≡ some m)
        × Ends
            (ltb
              (fetch aead key transfer_id s m now finished answers).chunks_done
              (length (fetch aead key transfer_id s m now finished answers).chunks))
            (fetch aead key transfer_id s m now finished answers)
            (verify_file d file_hash m (fetch aead key transfer_id s m now finished answers).chunks)
            s'
            out
  unfolding cycle_over
  by_manifest s now finished answers sends none h = cc
  by_manifest s now finished answers sends (some m) {out = out} h = (
    m,
    refl,
    cycle_over-Ends sends _ (fetch aead key transfer_id s m now finished answers) _ _ out h,
  )

  cycle-IsConsistent :
      (s : Download) (now finished : ℕ) (answers : List (ℕ × List (ℕ × List ℕ))) (sends : Bool)
      {s' : Download} {ack : ReceiverMessage}
      → cycle aead key transfer_id d file_hash s now finished answers sends ≡ ok (s', ack, none)
      → IsConsistent aead key transfer_id s
      → IsConsistent aead key transfer_id s'
  unfolding cycle Ends
  cycle-IsConsistent s now finished answers sends h w =
      let (m, e, (more, same)) = by_manifest s now finished answers sends s.described h in
      let (e', w') = fetch-IsOver s m now finished answers (e, w) in
      subst (IsConsistent aead key transfer_id) (sym same) w'

  Step-IsConsistent :
      {s t : Download}
      → Step s t
      → IsConsistent aead key transfer_id s
      → IsConsistent aead key transfer_id t
  Step-IsConsistent {s = s} (handles msg pubkey now e) w =
      subst (IsKept aead key transfer_id to_hex expected_name) e
        (handle-IsKept aead key transfer_id to_hex expected_name normalize s msg pubkey now w)
  Step-IsConsistent joins w = w
  Step-IsConsistent {s = s} (cycles now finished answers sends e) w =
      cycle-IsConsistent s now finished answers sends e w

  pub Reachable-IsConsistent : {s : Download} → Reachable s → IsConsistent aead key transfer_id s
  Reachable-IsConsistent starts = new-IsConsistent
  Reachable-IsConsistent (steps r e) = Step-IsConsistent e (Reachable-IsConsistent r)

  -- Whatever the sender says and the relays serve, one placement stands for each announced chunk, each
  -- on a relay of the ring; the announced chunks are pieces of the file, and the count kept is the
  -- number of pieces held.
  pub Reachable-positions :
      {s : Download}
      → Reachable s
      → (s.upto ≤ length s.chunks)
        × (length s.positions ≡ s.upto)
        × All (λ p. p < length s.ring) s.positions
        × (s.chunks_done ≡ held s.chunks)
  Reachable-positions r =
      let (described, done, c, p, inside) = Reachable-IsConsistent r in (c, p, inside, done)
