-- ===== src/NostrFile/Control/Relays/Runs.antt =====
-- Runs of a control channel's relays, and the theorems on them.
use ptransfer_cli.Common.{
  ℕ, suc, ◌+◌, ◌≡◌, ◌≤◌, ◌<◌, refl, List, [], ◌∷◌, some, true, length, all, arith,
}
use ptransfer_cli.Common.Bytes.{codes}
use ptransfer_cli.NostrFile.Control.{has_relay}
use ptransfer_cli.NostrFile.Control.Relays.{
  ControlRelaySet, new, new_from, accept, gave_up, remove, tally_of,
}
use ptransfer_cli.NostrFile.Control.Distinct.{is_distinct}
use ptransfer_cli.NostrFile.Control.Relays.Reached.{
  Reachable, starts, steps, accepts, gives_up, floor_of, Reachable-IsSound,
}
use ptransfer_cli.NostrFile.Control.Relays.Demoted.{IsRemoved, gave_up-demoted}

abbrev relay : List ℕ
relay = codes "wss://a.example"

abbrev relays : List (List ℕ)
relays = relay ∷ codes "wss://b.example" ∷ codes "wss://c.example" ∷ relay ∷ []

-- A set that has taken on a fourth relay, and whose first has given up once.
abbrev sample : ControlRelaySet
sample = (gave_up (accept some (new relays (some 2)) (codes "wss://d.example" ∷ [])).0 relay).0

sample_reached : Reachable some relays (some 2) sample
sample_reached = steps (steps starts (accepts (codes "wss://d.example" ∷ []))) (gives_up relay)

Reachable-IsSound_example :
    (all (λ a. has_relay a sample.known) sample.active ≡ true)
    × (is_distinct sample.active ≡ true)
    × (length sample.known ≤ 10)
    × (floor_of (some 2) (length (new relays (some 2)).active) ≤ length sample.active)
Reachable-IsSound_example = Reachable-IsSound some (omega arith) sample_reached

-- A relay that has given up five publishes and accepted none.
abbrev failing : ControlRelaySet
failing = record (new relays (some 2)) { settled = (relay, (0, 5)) ∷ [] }

sixth : (gave_up failing relay).1 ≡ true
unfolding gave_up remove new new_from
sixth = refl

gave_up-demoted_example :
    (min_relays : ℕ) × (failing.policy ≡ some min_relays)
    × (min_relays < length failing.active)
    × (6 ≤ (tally_of relay failing.settled).0 + suc (tally_of relay failing.settled).1)
    × ((tally_of relay failing.settled).0 ≤ suc (tally_of relay failing.settled).1)
    × IsRemoved relay failing.active (gave_up failing relay).0.active
gave_up-demoted_example = gave_up-demoted failing relay sixth
