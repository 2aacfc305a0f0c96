-- ===== src/NostrFile/Download/Loop.antt =====
-- `run` of src/code/nostr_file/download.rs, one round of its loop. The clocks are one, in seconds:
-- `now` when the round's event is over and `finished` when its fetches are.
use ptransfer_cli.Common.{
  is_some, ℕ, ◌-◌, ◌*◌, List, [], ◌∷◌, Option, none, some, Bool, true, false, not, ◌&&◌, ◌||◌, ltb,
  leb, is_empty, Result, ok, err, ensure, ◌>>=◌, ◌>>◌,
}
use ptransfer_cli.Crypto.Aead.{Aead}
use ptransfer_cli.Wire.Flate.{Decoder}
use ptransfer_cli.NostrFile.Manifest.{NostrFileManifest}
use ptransfer_cli.NostrFile.Control.{SenderMessage}
use ptransfer_cli.NostrFile.Control.Reply.{ReceiverMessage}
use ptransfer_cli.NostrFile.Download
use ptransfer_cli.NostrFile.Download.{Download, handle}
use ptransfer_cli.NostrFile.Download.Cycle
use ptransfer_cli.NostrFile.Download.Cycle.{live_fetch_retry, cycle}

-- What a round waits for: the channel closes, a message comes, or a second passes.
pub data Happening : Type 0 where
  closed quiet : Happening
  message : Option SenderMessage → ℕ → Happening

pub data Error : Type 0 where
  channel_closed expired stopped_responding no_answer : Error
  handling : Download.Error → Error
  cycling : Cycle.Error → Error

abbrev pub live_idle_timeout : ℕ
live_idle_timeout = 3 * 60

-- What `run` reads of its context: when the exchange expires, whether the response is yet to be handed
-- over, and when the loop started.
pub record Context : Type 0 where
  pub expires_at : ℕ
  pub awaiting_handover : Bool
  pub started : ℕ

abbrev pub expiry : Context → Option NostrFileManifest → ℕ
expiry c none = c.expires_at
expiry c (some m) = m.expires_at

abbrev pub since : Context → Option ℕ → ℕ
since c none = c.started
since c (some at) = at

abbrev pub silence : Option ℕ → Error
silence none = no_answer
silence (some at) = stopped_responding

unfoldable pub check_clocks : Context → Download → ℕ → Result Error (Unit {0})
check_clocks c s now = do
  ensure (not (ltb (expiry c s.described) now)) expired
  ensure
      (not (
        (is_some s.last_peer_at || not c.awaiting_handover)
        && ltb live_idle_timeout (now - since c s.last_peer_at)))
      (silence s.last_peer_at)

abbrev pub has_cooled : Option ℕ → ℕ → Bool
has_cooled none now = true
has_cooled (some last) now = leb live_fetch_retry (now - last)

abbrev pub is_due : Download → Bool → ℕ → Bool
is_due s fetch_now now =
    not (is_empty s.ring)
    && ltb s.chunks_done s.upto
    && (fetch_now || has_cooled s.last_cycle_at now)

-- A round: its event, when that is over and when the fetches are, what the relays serve, and whether the
-- channel takes the acknowledgment.
pub record Round : Type 0 where
  pub event : Happening
  pub now : ℕ
  pub finished : ℕ
  pub answers : List (ℕ × List (ℕ × List ℕ))
  pub sends : Bool

module _ (aead : Aead) (key transfer_id : List ℕ) (d : Decoder) (file_hash : List ℕ → List ℕ)
    (to_hex : ℕ → List ℕ) (expected_name : List ℕ) (normalize : List ℕ → Option (List ℕ)) where
  -- The relays that an announcement named are taken over at once.
  abbrev pub joined : Result Download.Error (Download × Bool) → Result Error (Download × Bool)
  joined (ok (s, fetch_now)) = ok (record s { adopt_ctl = [] }, fetch_now)
  joined (err e) = err (handling e)

  unfoldable pub take_event : Download → Happening → ℕ → Result Error (Download × Bool)
  take_event s closed now = err channel_closed
  take_event s (message msg pubkey) now =
      joined (handle to_hex expected_name normalize s msg pubkey now)
  take_event s quiet now = ok (s, false)

  abbrev pub ended :
      Result Cycle.Error (Download × ReceiverMessage × Option (List ℕ))
      → Result Error (Download × Option (List ℕ))
  ended (ok (s, ack, out)) = ok (s, out)
  ended (err e) = err (cycling e)

  abbrev pub fetch_when :
      Bool
      → Download
      → ℕ
      → ℕ
      → List (ℕ × List (ℕ × List ℕ))
      → Bool
      → Result Error (Download × Option (List ℕ))
  fetch_when true s now finished answers sends =
      ended (cycle aead key transfer_id d file_hash s now finished answers sends)
  fetch_when false s now finished answers sends = ok (s, none)

  abbrev pub after_event :
      Context
      → ℕ
      → ℕ
      → List (ℕ × List (ℕ × List ℕ))
      → Bool
      → Download × Bool
      → Result Error (Download × Option (List ℕ))
  after_event c now finished answers sends (s, fetch_now) =
      check_clocks c s now >> fetch_when (is_due s fetch_now now) s now finished answers sends

  -- The state that the next round begins with, or the file that `run` returns.
  unfoldable pub run_once : Context → Download → Round → Result Error (Download × Option (List ℕ))
  run_once c s r = take_event s r.event r.now >>= after_event c r.now r.finished r.answers r.sends

  abbrev pub unless_done :
      (Download → Result Error (Download × Option (List ℕ)))
      → Download × Option (List ℕ)
      → Result Error (Download × Option (List ℕ))
  unless_done later (s, none) = later s
  unless_done later (s, some contents) = ok (s, some contents)

  unfoldable pub run : Context → Download → List Round → Result Error (Download × Option (List ℕ))
  unfolding run_once
  run c s [] = ok (s, none)
  run c s (r ∷ rounds) = run_once c s r >>= unless_done (λ s'. run c s' rounds)
