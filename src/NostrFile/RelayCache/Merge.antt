-- ===== src/NostrFile/RelayCache/Merge.antt =====
-- `merge_candidates` of relay_cache.rs: the candidates of a transfer, from what it discovered and what the
-- cache holds.
use ptransfer_cli.Common.{
  ℕ, suc, List, [], ◌∷◌, ◌++◌, Option, none, some, Bool, true, not, ◌&&◌, leb, if◌then◌else◌,
  filter, map, length,
}
use ptransfer_cli.NostrFile.Control.{has_relay}
use ptransfer_cli.NostrFile.RelayCache.{
  Capability, control, storage, CachedRelay, PoolState, Cache, unwrap_or, is_fresh, is_fresh_at,
  is_healthy, lookup, change_entry, by_url, discovery_candidate_cap,
}
use ptransfer_cli.NostrFile.RelayCache.Rank.{u64_max, then_by, url_le, sort_by, rank}
use ptransfer_cli.NostrFile.RelayUrl.{Url, normalize_relay_url}

abbrev pub supports : Capability → CachedRelay → Bool
supports control r = r.supports_control
supports storage r = r.supports_storage

-- `Option<u64>::cmp`, `None` before any time.
abbrev pub option_rank : Option ℕ → ℕ
option_rank none = 0
option_rank (some n) = suc n

-- The order of the relays known to work, and that of the others by their records.
abbrev pub works_before : CachedRelay → CachedRelay → Bool
works_before a b = then_by (unwrap_or a.rtt_ms u64_max) (unwrap_or b.rtt_ms u64_max) (
    then_by (option_rank b.last_succeeded_at) (option_rank a.last_succeeded_at)
      (url_le a.url b.url))

abbrev pub failures : Option CachedRelay → ℕ
failures none = 0
failures (some r) = r.consecutive_failures

abbrev pub listed : Option CachedRelay → ℕ
listed none = 0
listed (some r) = r.last_discovered_at

abbrev pub fails_before : List CachedRelay → List ℕ → List ℕ → Bool
fails_before rs a b =
    then_by (failures (lookup a rs)) (failures (lookup b rs))
      (then_by (listed (lookup b rs)) (listed (lookup a rs)) true)

-- `if seen.insert(url) { kept.push(url) }` over a list, `kept` being what was seen.
abbrev pub push_new : List (List ℕ) → List ℕ → List (List ℕ)
push_new kept url = if has_relay url kept then kept else kept ++ url ∷ []

unfoldable pub unique_from : List (List ℕ) → List (List ℕ) → List (List ℕ)
unique_from kept [] = kept
unique_from kept (url ∷ urls) = unique_from (push_new kept url) urls

-- The last loop, which stops where the cap is reached.
unfoldable pub merge_from : List (List ℕ) → List (List ℕ) → List (List ℕ)
merge_from merged [] = merged
merge_from merged (url ∷ urls) =
    let next = push_new merged url in
    let rest = merge_from next urls in
    if leb discovery_candidate_cap (length next) then next else rest

abbrev pub insert_missing : ℕ → List (List ℕ) → List CachedRelay → List CachedRelay
insert_missing at [] rs = rs
insert_missing at (url ∷ urls) rs = insert_missing at urls (change_entry (λ r. r) url at rs)

abbrev pub insert_listed : ℕ → List (List ℕ) → List CachedRelay → List CachedRelay
insert_listed now [] rs = rs
insert_listed now (url ∷ urls) rs =
    insert_listed now urls (change_entry (λ r. record r { last_discovered_at = now }) url now rs)

abbrev pub state_time : Option PoolState → ℕ
state_time none = 0
state_time (some s) = s.discovered_at

abbrev pub state_cursor : Option PoolState → ℕ
state_cursor none = 0
state_cursor (some s) = s.cursor

module _ (parse : List ℕ → Option Url) (seeds : List (List ℕ)) where
  abbrev pub unless_seed : Option (List ℕ) → List (List ℕ) → List (List ℕ)
  unless_seed none rest = rest
  unless_seed (some url) rest = if has_relay url seeds then rest else url ∷ rest

  abbrev pub without_seeds : List (List ℕ) → List (List ℕ)
  without_seeds [] = []
  without_seeds (url ∷ urls) = unless_seed (normalize_relay_url parse url) (without_seeds urls)

  -- The candidates of the state, where it is fresh.
  abbrev pub cached_of : Option PoolState → ℕ → List (List ℕ)
  cached_of none now = []
  cached_of (some s) now =
      if is_fresh_at s.discovered_at now then without_seeds s.candidates else []

  -- The records with what is cached and discovered among them.
  unfoldable pub records_for : Cache → List (List ℕ) → ℕ → List CachedRelay
  records_for cache discovered now = insert_listed now discovered (
      insert_missing (state_time cache.state) (cached_of cache.state now)
        (filter (λ r. is_fresh r now) (by_url (normalize_relay_url parse) cache)))

  abbrev pub is_known_working : Capability → CachedRelay → Bool
  is_known_working capability r =
      not (has_relay r.url seeds) && supports capability r && is_healthy r

  unfoldable pub known_working : Capability → List CachedRelay → List (List ℕ)
  known_working capability rs =
      map (λ r. r.url) (sort_by works_before (filter (is_known_working capability) rs))

  unfoldable pub merged_of : Cache → List (List ℕ) → Capability → ℕ → List (List ℕ)
  unfolding known_working records_for unique_from merge_from
  merged_of cache discovered capability now =
      let rs = records_for cache discovered now in
      let ranked =
        sort_by (fails_before rs) (unique_from [] (discovered ++ cached_of cache.state now)) in
      merge_from [] (known_working capability rs ++ ranked)

  unfoldable pub merge_candidates : Cache → List (List ℕ) → Capability → ℕ → Cache × List (List ℕ)
  merge_candidates cache discovered capability now =
      let merged = merged_of cache discovered capability now in
      let state : PoolState = record {
        candidates = merged;
        discovered_at = now;
        cursor = state_cursor cache.state;
      } in
      (
        rank parse (record { state = some state; relays = records_for cache discovered now }) now,
        merged,
      )
