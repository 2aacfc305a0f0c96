-- ===== src/NostrFile/RelayCache.antt =====
-- src/code/nostr_file/relay_cache.rs: what earlier runs learned about relays. Times are milliseconds. A
-- map by URL is the list of its entries, one for each URL: what the maps feed is put in an order that
-- does not depend on theirs. `normalize` is `normalize_relay_url` over the `url` crate's parser.
pub mod Rank
pub mod Merge
pub mod Ring
pub mod Merged
pub mod Barred
pub mod Rotated
mod Runs
use ptransfer_cli.Common.{
  ℕ, suc, ◌+◌, ◌-◌, ◌*◌, ◌^◌, max, List, [], ◌∷◌, ◌++◌, Option, none, some, Bool, true, false, not,
  ◌&&◌, ◌||◌, ltb, leb, ◌==◌, is_some, if◌then◌else◌, filter,
}
use ptransfer_cli.Common.Bytes.{bytes_eq}

-- `RELAY_CANDIDATE_TTL`
abbrev pub relay_candidate_ttl : ℕ
relay_candidate_ttl = 7 * 24 * 60 * 60 * 1000

abbrev pub discovery_candidate_cap : ℕ
discovery_candidate_cap = 150

abbrev pub relay_cache_max_entries : ℕ
relay_cache_max_entries = 2000

pub data Capability : Type 0 where
  control storage : Capability

pub record CachedRelay : Type 0 where
  pub url : List ℕ
  pub last_discovered_at : ℕ
  pub last_checked_at : Option ℕ
  pub last_succeeded_at : Option ℕ
  pub rtt_ms : Option ℕ
  pub consecutive_failures : ℕ
  pub supports_control : Bool
  pub supports_storage : Bool

abbrev pub discovered : List ℕ → ℕ → CachedRelay
discovered url now = record {
  url = url;
  last_discovered_at = now;
  last_checked_at = none;
  last_succeeded_at = none;
  rtt_ms = none;
  consecutive_failures = 0;
  supports_control = false;
  supports_storage = false;
}

-- `Option::unwrap_or`
abbrev pub unwrap_or : Option ℕ → ℕ → ℕ
unwrap_or none d = d
unwrap_or (some n) d = n

abbrev pub freshness : CachedRelay → ℕ
freshness r =
    max (max r.last_discovered_at (unwrap_or r.last_checked_at 0)) (unwrap_or r.last_succeeded_at 0)

abbrev pub is_healthy : CachedRelay → Bool
is_healthy r = r.consecutive_failures == 0 && is_some r.last_succeeded_at

abbrev pub is_fresh_at : ℕ → ℕ → Bool
is_fresh_at at now = leb at now && ltb (now - at) relay_candidate_ttl

-- `CachedRelay::is_fresh`
abbrev pub is_fresh : CachedRelay → ℕ → Bool
is_fresh r now = is_healthy r || is_fresh_at (freshness r) now

pub record PoolState : Type 0 where
  pub candidates : List (List ℕ)
  pub discovered_at : ℕ
  pub cursor : ℕ

pub record Cache : Type 0 where
  pub state : Option PoolState
  pub relays : List CachedRelay

abbrev pub lookup : List ℕ → List CachedRelay → Option CachedRelay
lookup url [] = none
lookup url (r ∷ rs) = let rest = lookup url rs in if bytes_eq url r.url then some r else rest

-- `insert` of a map by URL.
abbrev pub put : CachedRelay → List CachedRelay → List CachedRelay
put relay [] = relay ∷ []
put relay (r ∷ rs) =
    let rest = put relay rs in if bytes_eq relay.url r.url then relay ∷ rs else r ∷ rest

-- `entry(url).or_insert_with(…)` and the change of the entry.
abbrev pub or_new : Option CachedRelay → List ℕ → ℕ → CachedRelay
or_new none url now = discovered url now
or_new (some r) url now = r

abbrev pub change_entry :
    (CachedRelay → CachedRelay) → List ℕ → ℕ → List CachedRelay → List CachedRelay
change_entry change url now rs = put (change (or_new (lookup url rs) url now)) rs

-- An entry is kept where it is fresher than the one that collapses to its URL.
abbrev pub is_kept : Option CachedRelay → CachedRelay → Bool
is_kept none relay = false
is_kept (some previous) relay = ltb (freshness relay) (freshness previous)

module _ (normalize : List ℕ → Option (List ℕ)) where
  abbrev pub keep_fresher : Option (List ℕ) → CachedRelay → List CachedRelay → List CachedRelay
  keep_fresher none relay rs = rs
  keep_fresher (some url) relay rs =
      let renamed : CachedRelay = record relay { url = url } in
      if is_kept (lookup url rs) renamed then rs else put renamed rs

  unfoldable pub by_url_from : List CachedRelay → List CachedRelay → List CachedRelay
  by_url_from rs [] = rs
  by_url_from rs (relay ∷ relays) = by_url_from (keep_fresher (normalize relay.url) relay rs) relays

  unfoldable pub by_url : Cache → List CachedRelay
  unfolding by_url_from
  by_url cache = by_url_from [] cache.relays
