-- ===== src/NostrFile/RelayCache/Ring.antt =====
-- `take_ring` of relay_cache.rs: the relays of an upload, from where the last one stopped.
use ptransfer_cli.Common.{
  ℕ, zero, suc, ◌+◌, ◌%◌, min, List, [], ◌∷◌, Option, none, some, length, get_or,
}
use ptransfer_cli.NostrFile.RelayCache.{PoolState, Cache}

abbrev pub no_state : PoolState
no_state = record { candidates = []; discovered_at = 0; cursor = 0 }

-- `get_or_insert_with(PoolState::default)`
abbrev pub state_or_new : Option PoolState → PoolState
state_or_new none = no_state
state_or_new (some s) = s

-- `(0..count).map(|i| healthy[(cursor + i) % healthy.len()])`, from a position on.
abbrev pub around : List (List ℕ) → ℕ → ℕ → List (List ℕ)
around healthy position zero = []
around healthy position (suc count) =
    get_or healthy (position % length healthy) [] ∷ around healthy (position + 1) count

-- The URLs of the healthy relays and how many are wanted.
unfoldable pub take_ring : Cache → List (List ℕ) → ℕ → Cache × List (List ℕ)
take_ring cache [] count = (cache, [])
take_ring cache (url ∷ urls) count =
    let healthy = url ∷ urls in
    let state = state_or_new cache.state in
    let cursor = state.cursor % length healthy in
    let selected = around healthy cursor (min count (length healthy)) in
    (
      record cache {
        state = some (record state { cursor = (cursor + length selected) % length healthy });
      },
      selected,
    )
