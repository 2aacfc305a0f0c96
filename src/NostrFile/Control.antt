-- ===== src/NostrFile/Control.antt =====
-- src/code/nostr_file/control.rs: the messages of the two sides and what each checks of the other's.
-- A relay is its URL; `normalize` is `normalize_relay_url` of relays.rs, which rests on the `url`
-- crate and is a parameter.
pub mod Relays
pub mod Reply
pub mod Positions
pub mod Distinct
pub mod Canonical
use ptransfer_cli.Common.{
  ℕ, zero, suc, ◌+◌, List, [], ◌∷◌, Option, none, some, Bool, true, false, not, ◌&&◌, ◌||◌, ltb,
  ◌==◌, if◌then◌else◌, length, is_empty, get_elem?, Result, ok, err, ◌>>=◌, ◌>>◌, ensure, or_err,
}
use ptransfer_cli.Common.Bytes.{codes, bytes_eq}
use ptransfer_cli.NostrFile.Manifest.{NostrFileManifest}

pub data Error : Type 0 where
  position_past_map before_manifest ring_too_large not_a_relay relay_twice bad_control_set
        more_than_manifest no_ring map_length map_outside_ring too_many_gens bad_gen :
      Error

abbrev pub upload_relay_count : ℕ
upload_relay_count = 16

abbrev pub control_relay_max : ℕ
control_relay_max = 6 + 4

abbrev pub position_alphabet : List ℕ
position_alphabet = codes "ABCDEFGHIJKLMNOPQRSTUVWXYZabcdefghijklmnopqrstuvwxyz0123456789-_"

unfoldable pub encode_position : ℕ → Result Error ℕ
encode_position position = or_err (get_elem? position_alphabet position) position_past_map

-- `iter().position(…)`, from `index` on.
unfoldable pub position_from : ℕ → List ℕ → ℕ → Option ℕ
position_from index [] character = none
position_from index (byte ∷ bytes) character =
    let later = position_from (index + 1) bytes character in
    if byte == character then some index else later

unfoldable pub decode_position : ℕ → Option ℕ
unfolding position_from
decode_position character = position_from 0 position_alphabet character

pub data SenderMessage : Type 0 where
  -- n, manifest
  manifest : ℕ → NostrFileManifest → SenderMessage
  -- n, upto, relays, map, gens, ctl
  avail : ℕ → ℕ → List (List ℕ) → List ℕ → List (ℕ × ℕ) → List (List ℕ) → SenderMessage
  cancel : ℕ → SenderMessage

abbrev pub set_counter : SenderMessage → ℕ → SenderMessage
set_counter (manifest n m) counter = manifest counter m
set_counter (avail n upto relays chars gens ctl) counter = avail counter upto relays chars gens ctl
set_counter (cancel n) counter = cancel counter

abbrev pub counter_of : SenderMessage → ℕ
counter_of (manifest n m) = n
counter_of (avail n upto relays chars gens ctl) = n
counter_of (cancel n) = n

-- `HashSet::contains` on what was inserted.
abbrev pub has_relay : List ℕ → List (List ℕ) → Bool
has_relay relay [] = false
has_relay relay (r ∷ rs) = bytes_eq relay r || has_relay relay rs

-- Each relay normalizes, and to one that is not among those seen.
unfoldable pub check_relays :
    (List ℕ → Option (List ℕ)) → List (List ℕ) → List (List ℕ) → Result Error (Unit {0})
check_relays normalize seen [] = ok tt
check_relays normalize seen (relay ∷ relays) = do
  normalized ← or_err (normalize relay) not_a_relay
  ensure (not (has_relay normalized seen)) relay_twice
  check_relays normalize (normalized ∷ seen) relays

unfoldable pub check_map : ℕ → List ℕ → Result Error (Unit {0})
check_map relay_count [] = ok tt
check_map relay_count (character ∷ chars) = do
  position ← or_err (decode_position character) map_outside_ring
  ensure (ltb position relay_count) map_outside_ring
  check_map relay_count chars

unfoldable pub check_gens : ℕ → List (ℕ × ℕ) → Result Error (Unit {0})
check_gens upto [] = ok tt
check_gens upto ((index, generation) ∷ gens) = do
  ensure (ltb index upto && not (ltb generation 1)) bad_gen
  check_gens upto gens

unfoldable pub validate :
    (List ℕ → Option (List ℕ)) → SenderMessage → Option ℕ → Result Error (Unit {0})
validate normalize (manifest n m) total_chunks = ok tt
validate normalize (cancel n) total_chunks = ok tt
validate normalize (avail n upto relays chars gens ctl) none = err before_manifest
validate normalize (avail n upto relays chars gens ctl) (some total) = do
  ensure (not (ltb upload_relay_count (length relays))) ring_too_large
  check_relays normalize [] relays
  ensure (not (is_empty ctl || ltb control_relay_max (length ctl))) bad_control_set
  check_relays normalize [] ctl
  ensure (not (ltb total upto)) more_than_manifest
  ensure (not (is_empty relays && ltb 0 upto)) no_ring
  ensure (length chars == upto) map_length
  check_map (length relays) chars
  ensure (not (ltb upto (length gens))) too_many_gens
  check_gens upto gens
