-- ===== src/NostrFile/Download/Cycle.antt =====
-- `cycle` and `fetch_from_relay` of src/code/nostr_file/download.rs. What the relays serve is an
-- argument: for each that answered, in the order they finish, its ring position and the chunk events
-- in its answer, as index and content.
use ptransfer_cli.Common.{
  is_some, ℕ, zero, suc, ◌+◌, ◌-◌, List, [], ◌∷◌, ◌++◌, Option, none, some, Bool, false, not, ◌&&◌,
  ◌||◌, ltb, ◌==◌, if◌then◌else◌, length, set, get_or, Result, ok, err,
}
use ptransfer_cli.Crypto.Aead.{Aead}
use ptransfer_cli.Wire.Flate.{Decoder}
use ptransfer_cli.NostrFile.Codec.{open_piece}
use ptransfer_cli.NostrFile.Manifest.{NostrFileManifest}
use ptransfer_cli.NostrFile.Handover
use ptransfer_cli.NostrFile.Handover.{verify_file}
use ptransfer_cli.NostrFile.Control.Reply.{ReceiverMessage, acknowledge}
use ptransfer_cli.NostrFile.Download.{Download, placement}

pub data Error : Type 0 where
  no_manifest ack_failed : Error
  not_verified : Handover.Error → Error

abbrev pub live_fetch_retry : ℕ
live_fetch_retry = 10

abbrev pub is_same_placement : Option (ℕ × ℕ) → ℕ → ℕ → Bool
is_same_placement none position generation = false
is_same_placement (some (p, g)) position generation = p == position && g == generation

abbrev pub is_recent : Option ℕ → ℕ → Bool
is_recent none now = false
is_recent (some at) now = ltb (now - at) live_fetch_retry

-- Whether a placement is tried now: not one tried less than ten seconds ago.
unfoldable pub tries : Download → ℕ → ℕ → Option (ℕ × ℕ) → List (ℕ × ℕ × ℕ)
tries s now index none = []
tries s now index (some (position, generation)) =
    if is_same_placement (get_or s.last_tried index none) position generation
      && is_recent (get_or s.last_tried_at index none) now
    then []
    else (index, position, generation) ∷ []

-- The loop over the announced chunks from `index` on: what is tried, and where.
unfoldable pub tried_from : Download → ℕ → ℕ → ℕ → List (ℕ × ℕ × ℕ)
tried_from s now index zero = []
tried_from s now index (suc rounds) =
    let rest = tried_from s now (index + 1) rounds in
    if is_some (get_or s.chunks index none)
    then rest
    else tries s now index (placement s index) ++ rest

-- Whether a chunk is asked of the relay at a position.
abbrev pub is_asked : List (ℕ × ℕ × ℕ) → ℕ → ℕ → Bool
is_asked [] position index = false
is_asked ((i, p, g) ∷ tried) position index =
    (i == index && p == position) || is_asked tried position index

-- A piece goes where nothing is held yet.
unfoldable pub hold : Download → ℕ → List ℕ → Download
hold s index plaintext =
    if ltb index (length s.chunks) && not (is_some (get_or s.chunks index none))
    then record s { chunks = set s.chunks index (some plaintext); chunks_done = s.chunks_done + 1 }
    else s

unfoldable pub mark_tried : Download → ℕ → List (ℕ × ℕ × ℕ) → Download
mark_tried s now [] = s
mark_tried s now ((index, position, generation) ∷ tried) =
    let marked : Download = record s {
      last_tried = set s.last_tried index (some (position, generation));
      last_tried_at = set s.last_tried_at index (some now);
    } in
    mark_tried (if is_some (get_or s.chunks index none) then s else marked) now tried

abbrev pub reported : ℕ → Option (ℕ × ℕ) → List (ℕ × ℕ × ℕ)
reported index none = []
reported index (some (position, generation)) = (index, position, generation) ∷ []

-- The pieces announced, tried and not held, from `index` on.
unfoldable pub missing_from : Download → ℕ → ℕ → List (ℕ × ℕ × ℕ)
missing_from s index zero = []
missing_from s index (suc rounds) =
    let rest = missing_from s (index + 1) rounds in
    if is_some (get_or s.chunks index none)
    then rest
    else reported index (get_or s.last_tried index none) ++ rest

module _ (aead : Aead) (key transfer_id : List ℕ) where
  abbrev pub hold_opened : Download → ℕ → Option (List ℕ) → Download
  hold_opened s index none = s
  hold_opened s index (some plaintext) = hold s index plaintext

  -- The events of one answer: those that do not open, or were not asked for, are passed over.
  unfoldable pub take_answer :
      NostrFileManifest → List (ℕ × ℕ × ℕ) → ℕ → Download → List (ℕ × List ℕ) → Download
  take_answer m tried position s [] = s
  take_answer m tried position s ((index, content) ∷ events) =
      let opened =
        hold_opened s index
          (open_piece aead key transfer_id m.total_chunks m.chunk_size index content) in
      take_answer m tried position
        (if ltb index m.total_chunks && is_asked tried position index then opened else s) events

  unfoldable pub take_answers :
      NostrFileManifest → List (ℕ × ℕ × ℕ) → Download → List (ℕ × List (ℕ × List ℕ)) → Download
  take_answers m tried s [] = s
  take_answers m tried s ((position, events) ∷ answers) =
      let fetched = take_answer m tried position s events in
      take_answers m tried (if ltb position (length s.ring) then fetched else s) answers

  -- The state after the fetches, which began at `now` and ended at `finished`.
  unfoldable pub fetch :
      Download → NostrFileManifest → ℕ → ℕ → List (ℕ × List (ℕ × List ℕ)) → Download
  unfolding take_answers
  fetch s m now finished answers =
      let tried = tried_from s now 0 s.upto in
      mark_tried (take_answers m tried (record s { last_cycle_at = some now }) answers) finished
        tried

  module _ (d : Decoder) (file_hash : List ℕ → List ℕ) where
    abbrev pub hand_over :
        Download
        → ReceiverMessage
        → Result Error (List ℕ)
        → Result Error (Download × ReceiverMessage × Option (List ℕ))
    hand_over s ack (err e) = err e
    hand_over s ack (ok contents) = ok (record s { chunks = [] }, ack, some contents)

    abbrev pub not_verified_err : Result Handover.Error (List ℕ) → Result Error (List ℕ)
    not_verified_err (err e) = err (not_verified e)
    not_verified_err (ok contents) = ok contents

    -- One cycle over a manifest: the state, the acknowledgment sent, and the file where it is
    -- complete. `sends` says whether the channel takes the acknowledgment.
    unfoldable pub cycle_over :
        Download
        → NostrFileManifest
        → ℕ
        → ℕ
        → List (ℕ × List (ℕ × List ℕ))
        → Bool
        → Result Error (Download × ReceiverMessage × Option (List ℕ))
    unfolding fetch
    cycle_over s m now finished answers sends =
        let s' = fetch s m now finished answers in
        let ack = acknowledge 0 s.last_sender_n s'.chunks_done (missing_from s' 0 s.upto) in
        if not sends
        then err ack_failed
        else if ltb s'.chunks_done (length s'.chunks)
        then ok (s', ack, none)
        else hand_over s' ack (not_verified_err (verify_file d file_hash m s'.chunks))

    unfoldable pub cycle :
        Download
        → ℕ
        → ℕ
        → List (ℕ × List (ℕ × List ℕ))
        → Bool
        → Result Error (Download × ReceiverMessage × Option (List ℕ))
    cycle s now finished answers sends = elim s.described [
      | none ↦ err no_manifest
      | some m ↦ cycle_over s m now finished answers sends
    ]
