-- ===== src/NostrFile/RelayCache/Runs.antt =====
-- A cache of three relays of relay_cache.rs, one of them a seed, and the theorems on it. The parser of
-- URLs takes what stands behind the scheme for the host.
use ptransfer_cli.Common.{
  ℕ, ◌≤◌, ◌≡◌, refl, List, [], ◌∷◌, ◌++◌, Option, none, some, true, false, length, drop, arith,
}
use ptransfer_cli.Common.Bytes.{codes}
use ptransfer_cli.NostrFile.Control.{has_relay}
use ptransfer_cli.NostrFile.Control.Distinct.{is_distinct}
use ptransfer_cli.NostrFile.RelayUrl.{Url}
use ptransfer_cli.NostrFile.RelayCache.{control, Cache, discovered}
use ptransfer_cli.NostrFile.RelayCache.Rank.{passes}
use ptransfer_cli.NostrFile.RelayCache.Merge.{merge_candidates}
use ptransfer_cli.NostrFile.RelayCache.Merged.{merge_candidates-is_distinct}
use ptransfer_cli.NostrFile.RelayCache.Barred.{merge_candidates-other}
use ptransfer_cli.NostrFile.RelayCache.Ring.{take_ring}
use ptransfer_cli.NostrFile.RelayCache.Rotated.{take_ring-take_ring}

abbrev parse : List ℕ → Option Url
parse text = some (record {
  scheme = codes "wss";
  username = [];
  password = none;
  host = some (drop 6 text);
  port = none;
  path = [];
  query = none;
})

abbrev seed : List ℕ
seed = codes "wss://seed"

abbrev quick : List ℕ
quick = codes "wss://quick"

abbrev slow : List ℕ
slow = codes "wss://slow"

abbrev sample : Cache
sample = record {
  state = some (record { candidates = seed ∷ slow ∷ []; discovered_at = 900; cursor = 2 });
  relays =
      passes parse control 950 5 (discovered seed 900)
      ∷ passes parse control 950 20 (discovered quick 900)
      ∷ discovered slow 900
      ∷ [];
}

abbrev found : List (List ℕ)
found = slow ∷ codes "wss://new" ∷ []

merge_candidates-is_distinct_example :
    (is_distinct (merge_candidates parse (seed ∷ []) sample found control 1000).1 ≡ true)
    × (length (merge_candidates parse (seed ∷ []) sample found control 1000).1 ≤ 150)
merge_candidates-is_distinct_example =
    merge_candidates-is_distinct parse (seed ∷ []) sample found control 1000

merge_candidates-other_example :
    has_relay seed (merge_candidates parse (seed ∷ []) sample found control 1000).1 ≡ false
merge_candidates-other_example =
    merge_candidates-other seed parse (seed ∷ []) refl sample found control 1000 refl

take_ring-take_ring_example :
    let healthy = quick ∷ slow ∷ codes "wss://new" ∷ [] in
    ((take_ring sample healthy 1).1 ++ (take_ring (take_ring sample healthy 1).0 healthy 2).1
      ≡ (take_ring sample healthy 3).1)
    × ((take_ring (take_ring sample healthy 1).0 healthy 2).0 ≡ (take_ring sample healthy 3).0)
take_ring-take_ring_example =
    take_ring-take_ring sample quick (slow ∷ codes "wss://new" ∷ []) 1 2 (omega arith)

takes_on :
    (take_ring sample (quick ∷ slow ∷ codes "wss://new" ∷ []) 2).1 ≡ codes "wss://new" ∷ quick ∷ []
unfolding take_ring
takes_on = refl
