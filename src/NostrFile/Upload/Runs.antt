-- ===== src/NostrFile/Upload/Runs.antt =====
-- Runs of upload.rs on a ring of three relays, and its theorems on them.
use ptransfer_cli.Common.{
  filter, ◌+◌, ◌%◌, ℕ, ◌-◌, ◌<◌, ◌≤◌, ◌≡◌, refl, map, List, [], ◌∷◌, ◌++◌, some, false, not, length,
  take, All, ok, arith,
}
use ptransfer_cli.Common.Bytes.{codes}
use ptransfer_cli.NostrFile.Control
use ptransfer_cli.NostrFile.Control.{
  avail, check_relays, encode_position, decode_position, position_from,
}
use ptransfer_cli.NostrFile.Upload.{
  Upload, new, adopt_ring, record_placed, announcement, candidates, contains, walk,
}
use ptransfer_cli.NostrFile.Upload.WellFormed.{IsPlaced, IsInRing}
use ptransfer_cli.NostrFile.Upload.Invariant.{
  Reachable, starts, steps, adopts, records, Reachable_lem,
}
use ptransfer_cli.NostrFile.Download.{read_map}
use ptransfer_cli.NostrFile.Upload.Announce.{validate-announcement}
use ptransfer_cli.NostrFile.Control.Canonical.{IsCanonical}
use ptransfer_cli.NostrFile.Upload.Candidates.{ring_from, candidates_lem}

abbrev relays : List (List ℕ)
relays = codes "wss://a.example" ∷ codes "wss://b.example" ∷ codes "wss://c.example" ∷ []

abbrev sample : Upload
sample = record_placed (adopt_ring (new 2) relays []) 0 1 false

sample_reached : Reachable 2 sample
unfolding new adopt_ring record_placed
sample_reached = steps (steps starts (adopts relays [] refl)) (records 0 1 false (omega arith))

Reachable_lem_example :
    (sample.upto ≤ sample.total)
    × All IsPlaced (take sample.upto sample.placed)
    × All (IsInRing (length sample.ring)) sample.placed
    × (length sample.demoted ≤ length sample.ring - 1)
    × All (λ i. i < sample.total) sample.retry_queue
Reachable_lem_example = Reachable_lem sample_reached

relays-IsCanonical : IsCanonical some relays
relays-IsCanonical = ((refl, (refl, (refl, tt))), refl)

sample_ring : sample.ring ≡ relays
unfolding record_placed adopt_ring new
sample_ring = refl

sample-IsCanonical : IsCanonical some sample.ring
unfolding record_placed adopt_ring new
sample-IsCanonical = relays-IsCanonical

sample_small : length sample.ring ≤ 16
unfolding record_placed adopt_ring new
sample_small = omega arith

sample_not_empty : 0 < length sample.ring
unfolding record_placed adopt_ring new
sample_not_empty = omega arith

validate-announcement_example :
    (chars : List ℕ) × (gens : List (ℕ × ℕ)) × (announcement sample relays
      ≡ ok (avail 0 sample.upto sample.ring chars gens relays))
    × (Control.validate some (avail 0 sample.upto sample.ring chars gens relays) (some sample.total)
        ≡ ok tt)
    × (map some (read_map chars) ≡ take sample.upto sample.placed)
validate-announcement_example =
    validate-announcement some relays sample_reached sample_small sample-IsCanonical (omega arith)
      (omega arith) relays-IsCanonical

-- The second miss of a relay demotes it, and its turn in a walk comes last.
demoted_last : candidates (record sample { demoted = 1 ∷ [] }) 1 0 ≡ 2 ∷ 0 ∷ 1 ∷ []
unfolding candidates walk record_placed adopt_ring new
demoted_last = refl

candidates_lem_example :
    let order = ring_from ((1 + 4) % length sample.ring) (length sample.ring) in
    candidates (record sample { demoted = 2 ∷ [] }) 1 4
    ≡ filter (λ p. not (contains p (2 ∷ []))) order ++ filter (λ p. contains p (2 ∷ [])) order
candidates_lem_example = candidates_lem (record sample { demoted = 2 ∷ [] }) 1 4 sample_not_empty
