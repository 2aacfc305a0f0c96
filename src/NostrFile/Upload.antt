-- ===== src/NostrFile/Upload.antt =====
-- The shared state of src/code/nostr_file/upload.rs and what its tasks do to it under the lock. A
-- clock reading is a number of seconds, an identity a number. A write out of bounds, where the
-- source would panic, changes nothing here.
pub mod Reader
pub mod Announce
pub mod Candidates
pub mod Promote
pub mod WellFormed
pub mod Invariant
mod Runs
use ptransfer_cli.Common.{
  ℕ, zero, suc, ◌+◌, ◌-◌, ◌/◌, ◌%◌, max, List, [], ◌∷◌, ◌++◌, Option, none, some, Bool, true, false,
  not, ◌&&◌, ◌||◌, ltb, leb, ◌==◌, if◌then◌else◌, length, replicate, set, get_elem?, get_or, Result,
  ok, err, ◌>>=◌, or_err, with_err,
}
use ptransfer_cli.NostrFile.Control.{SenderMessage, avail, encode_position}

pub data Error : Type 0 where
  lost_placement bad_position : Error

abbrev pub live_min_retransmits_per_chunk : ℕ
live_min_retransmits_per_chunk = 4

abbrev pub live_relay_demote_misses : ℕ
live_relay_demote_misses = 2

abbrev pub live_relay_demote_giveups : ℕ
live_relay_demote_giveups = 3

abbrev pub live_batch_chunks : ℕ
live_batch_chunks = 64

pub record Upload : Type 0 where
  pub total : ℕ
  pub placed : List (Option ℕ)
  pub generation : List ℕ
  pub next_offset : List ℕ
  pub ring : List (List ℕ)
  pub misses : List ℕ
  pub give_ups : List ℕ
  pub demoted : List ℕ
  pub reserve : List (List ℕ)
  pub owed_promotions : ℕ
  pub max_retransmits : ℕ
  pub upto : ℕ
  pub chunks_done : ℕ
  pub resent : ℕ
  pub next_chunk : ℕ
  pub retry_queue : List ℕ
  pub pending_retry : List ℕ
  pub receiver_pubkey : Option ℕ
  pub receiver_have : ℕ
  pub last_peer_n : ℕ
  pub last_peer_at : Option ℕ
  pub avail_dirty : Bool
  pub finished : Bool

unfoldable pub new : ℕ → Upload
new total = record {
  total = total;
  placed = replicate total none;
  generation = replicate total 0;
  next_offset = replicate total 0;
  ring = [];
  misses = [];
  give_ups = [];
  demoted = [];
  reserve = [];
  owed_promotions = 0;
  max_retransmits = live_min_retransmits_per_chunk;
  upto = 0;
  chunks_done = 0;
  resent = 0;
  next_chunk = 0;
  retry_queue = [];
  pending_retry = [];
  receiver_pubkey = none;
  receiver_have = 0;
  last_peer_n = 0;
  last_peer_at = none;
  avail_dirty = false;
  finished = false;
}

-- `contains` of a set of numbers, and `remove`.
abbrev pub contains : ℕ → List ℕ → Bool
contains x [] = false
contains x (y ∷ ys) = x == y || contains x ys

abbrev pub remove : ℕ → List ℕ → List ℕ
remove x [] = []
remove x (y ∷ ys) = let rest = remove x ys in if x == y then rest else y ∷ rest

-- The walk round the ring from `step` on: the healthy positions, and the demoted ones.
unfoldable pub walk : List ℕ → ℕ → ℕ → ℕ → ℕ → ℕ → List ℕ × List ℕ
walk demoted size index offset step zero = ([], [])
walk demoted size index offset step (suc rounds) =
    let position = (index + (offset + step) % size) % size in
    let (healthy, fallback) = walk demoted size index offset (step + 1) rounds in
    if contains position demoted
    then (healthy, position ∷ fallback)
    else (position ∷ healthy, fallback)

unfoldable pub candidates : Upload → ℕ → ℕ → List ℕ
candidates u index offset =
    let size = length u.ring in
    let (healthy, fallback) = walk u.demoted size index offset 0 size in healthy ++ fallback

unfoldable pub demote : Upload → ℕ → Upload
demote u position =
    if leb (length u.ring) (length u.demoted + 1) || contains position u.demoted
    then u
    else record u { demoted = position ∷ u.demoted }

-- The loop of `announcement` over the chunks from `index` on: the map and the re-sends.
unfoldable pub announce_from : Upload → ℕ → ℕ → Result Error (List ℕ × List (ℕ × ℕ))
announce_from u index zero = ok ([], [])
announce_from u index (suc rounds) = do
  position ← or_err (get_or u.placed index none) lost_placement
  character ← with_err (encode_position position) bad_position
  (chars, gens) ← announce_from u (index + 1) rounds
  let generation = get_or u.generation index 0
  ok (character ∷ chars, if generation == 0 then gens else (index, generation) ∷ gens)

unfoldable pub announcement : Upload → List (List ℕ) → Result Error SenderMessage
announcement u ctl = do
  (chars, gens) ← announce_from u 0 u.upto
  ok (avail 0 u.upto u.ring chars gens ctl)

-- `if state.finished { return }`
abbrev pub unless_finished : Bool → Upload → Upload → Upload
unless_finished true u next = u
unless_finished false u next = next

-- `start_workers` adopts the ring.
unfoldable pub adopt_ring : Upload → List (List ℕ) → List (List ℕ) → Upload
adopt_ring u ring reserve = unless_finished u.finished u (record u {
  misses = replicate (length ring) 0;
  give_ups = replicate (length ring) 0;
  max_retransmits = max (length ring) live_min_retransmits_per_chunk;
  ring = ring;
  reserve = reserve;
  avail_dirty = true;
})

-- A worker takes the next chunk, a re-send first; the list is the queue of re-sends.
unfoldable pub take_from : Upload → List ℕ → Upload × Option (ℕ × Bool)
take_from u (index ∷ rest) = (record u { retry_queue = rest }, some (index, true))
take_from u [] =
    if ltb u.next_chunk u.total
    then (record u { next_chunk = u.next_chunk + 1 }, some (u.next_chunk, false))
    else (u, none)

unfoldable pub take_next : Upload → Upload × Option (ℕ × Bool)
unfolding take_from
take_next u = if u.finished then (u, none) else take_from u u.retry_queue

-- `place` moves the start of the chunk's next walk past the position it tries.
unfoldable pub try_position : Upload → ℕ → ℕ → Upload
try_position u index position =
    let size = length u.ring in
    unless_finished u.finished u (record u {
      next_offset = set u.next_offset index (((position + size - index % size) % size + 1) % size);
    })

-- A relay that rejected a piece through every retry.
unfoldable pub give_up : Upload → ℕ → Upload
unfolding demote
give_up u position =
    let count = get_or u.give_ups position 0 + 1 in
    let u' : Upload = record u { give_ups = set u.give_ups position count } in
    if leb live_relay_demote_giveups count then demote u' position else u'

abbrev pub is_placed : Option ℕ → Bool
is_placed none = false
is_placed (some position) = true

-- `while upto < total && placed[upto].is_some()`; `rounds` is what is left up to `total`.
unfoldable pub advance : List (Option ℕ) → ℕ → ℕ → ℕ
advance placed zero upto = upto
advance placed (suc rounds) upto =
    let further = advance placed rounds (upto + 1) in
    if is_placed (get_or placed upto none) then further else upto

-- A worker records where a chunk landed.
unfoldable pub record_placed : Upload → ℕ → ℕ → Bool → Upload
record_placed u index position is_retry =
    let placed = set u.placed index (some position) in
    let upto = advance placed (u.total - u.upto) u.upto in
    unless_finished u.finished u (record u {
      placed = placed;
      generation =
          if is_retry
          then set u.generation index (get_or u.generation index 0 + 1)
          else u.generation;
      resent = if is_retry then u.resent + 1 else u.resent;
      pending_retry = if is_retry then remove index u.pending_retry else u.pending_retry;
      chunks_done = if is_retry then u.chunks_done else u.chunks_done + 1;
      upto = upto;
      avail_dirty =
          u.avail_dirty
          || is_retry
          || upto == u.total
          || not (u.upto / live_batch_chunks == upto / live_batch_chunks);
    })
