-- ===== src/NostrFile/Control/Reply.antt =====
-- The receiver's messages of control.rs.
use ptransfer_cli.Common.{ℕ, List, [], ◌∷◌, not, ◌||◌, ltb, leb, length, Result, ok, ◌>>◌, ensure}

pub data Error : Type 0 where
  too_many bad_placement : Error

pub data ReceiverMessage : Type 0 where
  hello : ℕ → ReceiverMessage
  -- n, avail, have, missing
  acknowledge : ℕ → ℕ → ℕ → List (ℕ × ℕ × ℕ) → ReceiverMessage
  done cancelled : ℕ → ReceiverMessage

abbrev pub counter_of : ReceiverMessage → ℕ
counter_of (hello n) = n
counter_of (acknowledge n avail have missing) = n
counter_of (done n) = n
counter_of (cancelled n) = n

-- `ChunkPlacement`: index, position and generation.
unfoldable pub check_missing : ℕ → ℕ → List (ℕ × ℕ × ℕ) → Result Error (Unit {0})
check_missing total_chunks relay_count [] = ok tt
check_missing total_chunks relay_count ((index, position, generation) ∷ missing) = do
  ensure (not (leb total_chunks index || leb relay_count position)) bad_placement
  check_missing total_chunks relay_count missing

unfoldable pub validate : ReceiverMessage → ℕ → ℕ → Result Error (Unit {0})
validate (acknowledge n avail have missing) total_chunks relay_count = do
  ensure (not (ltb total_chunks have || ltb total_chunks (length missing))) too_many
  check_missing total_chunks relay_count missing
validate (hello n) total_chunks relay_count = ok tt
validate (done n) total_chunks relay_count = ok tt
validate (cancelled n) total_chunks relay_count = ok tt
