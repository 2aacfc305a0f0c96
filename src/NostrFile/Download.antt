-- ===== src/NostrFile/Download.antt =====
-- src/code/nostr_file/download.rs: the receiver's state, the sender's messages and the fetch cycles.
-- A clock reading is a number of seconds, an identity a number with its hexadecimal text `to_hex`. A
-- message is `none` where its JSON is not one.
pub mod Cycle
pub mod Holding
pub mod Consistent
pub mod Heard
pub mod Reached
pub mod Contents
pub mod Served
pub mod Verified
pub mod Loop
pub mod Named
pub mod Returned
pub mod Planned
pub mod Progress
pub mod Resends
pub mod Placement
mod Runs
use ptransfer_cli.Common.{
  is_some, ℕ, zero, suc, ◌+◌, ◌-◌, List, [], ◌∷◌, Option, none, some, Bool, true, false, not, ◌&&◌,
  ◌||◌, ltb, leb, ◌==◌, if◌then◌else◌, length, is_empty, replicate, get_elem?, and_then, Result, ok,
  err, ◌>>=◌, ◌>>◌, ensure, with_err,
}
use ptransfer_cli.Common.Bytes.{bytes_eq}
use ptransfer_cli.NostrFile.Manifest
use ptransfer_cli.NostrFile.Manifest.{NostrFileManifest, check_window}
use ptransfer_cli.NostrFile.Control
use ptransfer_cli.NostrFile.Control.{
  SenderMessage, manifest, avail, cancel, counter_of, decode_position,
}

pub data Error : Type 0 where
  bad_manifest bad_window other_file peer_cancelled : Error

pub record Download : Type 0 where
  pub described : Option NostrFileManifest
  pub sender_pubkey : Option ℕ
  pub chunks : List (Option (List ℕ))
  pub last_tried : List (Option (ℕ × ℕ))
  pub last_tried_at : List (Option ℕ)
  pub ring : List (List ℕ)
  pub adopt_ctl : List (List ℕ)
  pub positions : List ℕ
  pub gens : List (ℕ × ℕ)
  pub upto : ℕ
  pub chunks_done : ℕ
  pub last_sender_n : ℕ
  pub last_peer_at : Option ℕ
  pub last_cycle_at : Option ℕ

unfoldable pub new : Download
new = record {
  described = none;
  sender_pubkey = none;
  chunks = [];
  last_tried = [];
  last_tried_at = [];
  ring = [];
  adopt_ctl = [];
  positions = [];
  gens = [];
  upto = 0;
  chunks_done = 0;
  last_sender_n = 0;
  last_peer_at = none;
  last_cycle_at = none;
}

-- A lookup in the map that `gens` is collected into: the last entry of an index counts.
unfoldable pub generation_of : List (ℕ × ℕ) → ℕ → Option ℕ
generation_of [] index = none
generation_of ((i, generation) ∷ gens) index =
    let later = generation_of gens index in
    elim later [ none ↦ if i == index then some generation else none | some g ↦ some g ]

abbrev pub or_zero : Option ℕ → ℕ
or_zero none = 0
or_zero (some n) = n

unfoldable pub placement : Download → ℕ → Option (ℕ × ℕ)
placement s index =
    and_then (get_elem? s.positions index)
      (λ position. some (position, or_zero (generation_of s.gens index)))

abbrev pub with_known : Option ℕ → List ℕ → List ℕ
with_known none rest = rest
with_known (some position) rest = position ∷ rest

-- `map.chars().filter_map(decode_position)`
unfoldable pub read_map : List ℕ → List ℕ
read_map [] = []
read_map (character ∷ chars) = with_known (decode_position character) (read_map chars)

-- `a == b` on lists of relays.
abbrev pub relays_eq : List (List ℕ) → List (List ℕ) → Bool
relays_eq [] [] = true
relays_eq [] (y ∷ ys) = false
relays_eq (x ∷ xs) [] = false
relays_eq (x ∷ xs) (y ∷ ys) = bytes_eq x y && relays_eq xs ys

abbrev pub is_pinned_elsewhere : Option ℕ → ℕ → Bool
is_pinned_elsewhere none pubkey = false
is_pinned_elsewhere (some pinned) pubkey = not (pinned == pubkey)

abbrev pub is_ok : {E : Type 0} → Result E (Unit {0}) → Bool
is_ok (ok t) = true
is_ok (err e) = false

abbrev pub total_of : Download → Option ℕ
total_of s = and_then s.described (λ m. some (length s.chunks))

-- The ring that an announcement leaves, or `none` where it names another one.
unfoldable pub adopted_ring : List (List ℕ) → List (List ℕ) → Option (List (List ℕ))
adopted_ring ring [] = some ring
adopted_ring [] (r ∷ relays) = some (r ∷ relays)
adopted_ring (x ∷ ring) (r ∷ relays) =
    if relays_eq (x ∷ ring) (r ∷ relays) then some (x ∷ ring) else none

-- `to_hex` and the name that the code described.
module _ (to_hex : ℕ → List ℕ) (expected_name : List ℕ) where
  -- The state that a manifest sizes.
  abbrev pub sized : Download → ℕ → NostrFileManifest → ℕ → ℕ → Download
  sized s n m pubkey now = record s {
    chunks = replicate m.total_chunks none;
    last_tried = replicate m.total_chunks none;
    last_tried_at = replicate m.total_chunks none;
    described = some m;
    sender_pubkey = some pubkey;
    last_sender_n = n;
    last_peer_at = some now;
  }

  unfoldable pub accept_manifest :
      Download → ℕ → NostrFileManifest → ℕ → ℕ → Result Error (Download × Bool)
  accept_manifest s n m pubkey now = do
    with_err (Manifest.validate m) bad_manifest
    with_err (check_window m now) bad_window
    ensure (bytes_eq m.file_name expected_name) other_file
    ok (sized s n m pubkey now, false)

  -- One manifest only, and from the identity that it names.
  unfoldable pub take_manifest :
      Download → ℕ → NostrFileManifest → ℕ → ℕ → Result Error (Download × Bool)
  take_manifest s n m pubkey now =
      if is_some s.described || not (bytes_eq m.pubkey (to_hex pubkey))
      then ok (s, false)
      else accept_manifest s n m pubkey now

  abbrev pub announced :
      Download
      → Option (List (List ℕ))
      → ℕ
      → ℕ
      → List ℕ
      → List (ℕ × ℕ)
      → List (List ℕ)
      → ℕ
      → Download × Bool
  announced s none n upto chars gens ctl now = (s, false)
  announced s (some ring) n upto chars gens ctl now = (
    record s {
      ring = ring;
      adopt_ctl = ctl;
      last_sender_n = n;
      last_peer_at = some now;
      upto = upto;
      positions = read_map chars;
      gens = gens;
    },
    not (is_empty ring || upto == 0),
  )

  unfoldable pub take_message : Download → SenderMessage → ℕ → ℕ → Result Error (Download × Bool)
  take_message s (manifest n m) pubkey now = take_manifest s n m pubkey now
  take_message s (avail n upto relays chars gens ctl) pubkey now =
      ok (announced s (adopted_ring s.ring relays) n upto chars gens ctl now)
  take_message s (cancel n) pubkey now = err peer_cancelled

  module _ (normalize : List ℕ → Option (List ℕ)) where
    abbrev pub is_ignored : Download → SenderMessage → ℕ → Bool
    is_ignored s msg pubkey =
        is_pinned_elsewhere s.sender_pubkey pubkey
        || not (is_ok (Control.validate normalize msg (total_of s)))
        || leb (counter_of msg) s.last_sender_n

    -- The new state, and whether a fetch is due at once.
    unfoldable pub handle : Download → Option SenderMessage → ℕ → ℕ → Result Error (Download × Bool)
    handle s none pubkey now = ok (s, false)
    handle s (some msg) pubkey now =
        if is_ignored s msg pubkey then ok (s, false) else take_message s msg pubkey now
