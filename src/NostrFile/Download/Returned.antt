-- ===== src/NostrFile/Download/Returned.antt =====
-- What the receiver's loop of download.rs returns.
use ptransfer_cli.Common.{
  ℕ, ◌≡◌, refl, subst, List, [], ◌∷◌, Option, none, some, Bool, true, false, length, Result, ok,
  err, ◌>>=◌, ◌>>◌,
}
use ptransfer_cli.Common.Bytes.{bytes_eq}
use ptransfer_cli.Crypto.Aead.{Aead}
use ptransfer_cli.Wire.Flate.{Decoder}
use ptransfer_cli.NostrFile.Manifest
use ptransfer_cli.NostrFile.Manifest.{NostrFileManifest}
use ptransfer_cli.NostrFile.Control.Reply.{ReceiverMessage}
use ptransfer_cli.NostrFile.Download
use ptransfer_cli.NostrFile.Download.{Download, new, handle}
use ptransfer_cli.NostrFile.Download.Cycle
use ptransfer_cli.NostrFile.Download.Cycle.{cycle}
use ptransfer_cli.NostrFile.Download.Reached.{Reachable, starts, steps, handles, joins, cycles}
use ptransfer_cli.NostrFile.Download.Named.{Reachable-named}
use ptransfer_cli.NostrFile.Download.Verified.{cycle-verified}
use ptransfer_cli.NostrFile.Download.Loop
use ptransfer_cli.NostrFile.Download.Loop.{
  Context, Happening, closed, quiet, message, Round, check_clocks, is_due, joined, take_event,
  ended, fetch_when, after_event, run_once, unless_done, run,
}

module _ (aead : Aead) (key transfer_id : List ℕ) (d : Decoder) (file_hash : List ℕ → List ℕ)
    (to_hex : ℕ → List ℕ) (expected_name : List ℕ) (normalize : List ℕ → Option (List ℕ)) where
  abbrev Reached : Download → Type 0
  Reached s = Reachable aead key transfer_id d file_hash to_hex expected_name normalize s

  -- A file of the size and the hash of the manifest taken, which passed its checks.
  abbrev pub IsVerified : Download → List ℕ → Type 0
  IsVerified s contents =
      (m : NostrFileManifest) × (s.described ≡ some m)
      × (Manifest.validate m ≡ ok tt)
      × (bytes_eq m.file_name expected_name ≡ true)
      × (length contents ≡ m.file_size)
      × (bytes_eq (file_hash contents) m.file_hash ≡ true)

  -- A good result: a state that is reached, or a file that is verified.
  abbrev IsGood : Result Loop.Error (Download × Option (List ℕ)) → Type 0
  IsGood (err e) = Unit
  IsGood (ok (s, none)) = Reached s
  IsGood (ok (s, some contents)) = IsVerified s contents

  ended-IsGood :
      (s : Download) (now finished : ℕ) (answers : List (ℕ × List (ℕ × List ℕ))) (sends : Bool)
      (out : Result Cycle.Error (Download × ReceiverMessage × Option (List ℕ)))
      → cycle aead key transfer_id d file_hash s now finished answers sends ≡ out
      → Reached s
      → IsGood (ended aead key transfer_id d file_hash to_hex expected_name normalize out)
  ended-IsGood s now finished answers sends (err e) h r = tt
  ended-IsGood s now finished answers sends (ok (s', ack, none)) h r =
      steps r (cycles now finished answers sends h)
  ended-IsGood s now finished answers sends (ok (s', ack, some contents)) h r =
      let (m, e, e', valid, all_held, size, hash) =
        cycle-verified aead key transfer_id d file_hash to_hex expected_name normalize now finished
          answers sends r h in
      let named =
        Reachable-named aead key transfer_id d file_hash to_hex expected_name normalize r e in
      (m, e', valid, named, size, hash)

  fetch_when-IsGood :
      (due : Bool) (s : Download) (now finished : ℕ) (answers : List (ℕ × List (ℕ × List ℕ)))
      (sends : Bool)
      → Reached s
      → IsGood (
          fetch_when aead key transfer_id d file_hash to_hex expected_name normalize due s now
            finished answers sends)
  fetch_when-IsGood false s now finished answers sends r = r
  fetch_when-IsGood true s now finished answers sends r =
      ended-IsGood s now finished answers sends _ refl r

  checked-IsGood :
      (clocks : Result Loop.Error (Unit {0}))
      (next : Result Loop.Error (Download × Option (List ℕ)))
      → IsGood next
      → IsGood (clocks >> next)
  checked-IsGood (ok t) next h = h
  checked-IsGood (err e) next h = tt

  abbrev after : Context → Round → Download × Bool → Result Loop.Error (Download × Option (List ℕ))
  after c x =
      after_event aead key transfer_id d file_hash to_hex expected_name normalize c x.now x.finished
        x.answers x.sends

  after-IsGood :
      (c : Context) (x : Round) (s : Download) (fetch_now : Bool)
      → Reached s
      → IsGood (after c x (s, fetch_now))
  after-IsGood c x s fetch_now r =
      checked-IsGood (check_clocks c s x.now) _
        (fetch_when-IsGood (is_due s fetch_now x.now) s x.now x.finished x.answers x.sends r)

  heard-IsGood :
      (c : Context) (x : Round) (s : Download) (out : Result Download.Error (Download × Bool))
      → ((s' : Download) (due : Bool) → out ≡ ok (s', due) → Reached s')
      → IsGood
          (joined aead key transfer_id d file_hash to_hex expected_name normalize out >>= after c x)
  heard-IsGood c x s (err e) h = tt
  heard-IsGood c x s (ok (s', due)) h =
      after-IsGood c x (record s' { adopt_ctl = [] }) due (steps (h s' due refl) joins)

  run_once-IsGood :
      (c : Context) (s : Download) (x : Round)
      → Reached s
      → IsGood (run_once aead key transfer_id d file_hash to_hex expected_name normalize c s x)
  unfolding run_once take_event
  run_once-IsGood c s x r = by_event x.event
    where
      by_event :
          (event : Happening)
          → IsGood (
              take_event aead key transfer_id d file_hash to_hex expected_name normalize s event
                x.now
              >>= after c x)
      by_event closed = tt
      by_event quiet = after-IsGood c x s false r
      by_event (message msg pubkey) =
          heard-IsGood c x s (handle to_hex expected_name normalize s msg pubkey x.now)
            (λ s' due e. steps r (handles msg pubkey x.now e))

  carried-IsGood :
      (later : Download → Result Loop.Error (Download × Option (List ℕ)))
      (out : Result Loop.Error (Download × Option (List ℕ)))
      → ((s : Download) → Reached s → IsGood (later s))
      → IsGood out
      → IsGood (
          out >>= unless_done aead key transfer_id d file_hash to_hex expected_name normalize later)
  carried-IsGood later (err e) h g = tt
  carried-IsGood later (ok (s, none)) h g = h s g
  carried-IsGood later (ok (s, some contents)) h g = g

  run-IsGood :
      (c : Context) (s : Download) (rounds : List Round)
      → Reached s
      → IsGood (run aead key transfer_id d file_hash to_hex expected_name normalize c s rounds)
  unfolding run
  run-IsGood c s [] r = r
  run-IsGood c s (x ∷ rounds) r =
      carried-IsGood
        (λ s'. run aead key transfer_id d file_hash to_hex expected_name normalize c s' rounds)
        (run_once aead key transfer_id d file_hash to_hex expected_name normalize c s x)
        (λ s' r'. run-IsGood c s' rounds r') (run_once-IsGood c s x r)

  -- Whatever messages come, whatever the relays serve and however the clocks run, a file that the
  -- receiver's loop returns has the size and the hash of the manifest that the loop has taken, which
  -- passed its checks and bears the name that the code described.
  pub run-verified :
      {s : Download} {contents : List ℕ} (c : Context) (rounds : List Round)
      → run aead key transfer_id d file_hash to_hex expected_name normalize c new rounds
        ≡ ok (s, some contents)
      → (m : NostrFileManifest) × (s.described ≡ some m)
        × (Manifest.validate m ≡ ok tt)
        × (bytes_eq m.file_name expected_name ≡ true)
        × (length contents ≡ m.file_size)
        × (bytes_eq (file_hash contents) m.file_hash ≡ true)
  run-verified c rounds h = subst IsGood h (run-IsGood c new rounds starts)
