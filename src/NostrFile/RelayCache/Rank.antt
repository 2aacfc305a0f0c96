-- ===== src/NostrFile/RelayCache/Rank.antt =====
-- The order of the cache: `rank`, and the records of probes and listings that end with it.
use ptransfer_cli.Common.{
  ℕ, ◌+◌, ◌-◌, ◌^◌, min, List, [], ◌∷◌, Option, none, some, Bool, true, false, ◌&&◌, ◌||◌, ltb,
  ◌==◌, if◌then◌else◌, filter, take,
}
use ptransfer_cli.Common.Bytes.{bytes_eq}
use ptransfer_cli.NostrFile.RelayCache.{
  Capability, control, storage, CachedRelay, PoolState, Cache, unwrap_or, is_fresh, change_entry,
  by_url, relay_cache_max_entries,
}
use ptransfer_cli.NostrFile.RelayUrl.{Url, normalize_relay_url, canonical}

abbrev pub u64_max : ℕ
u64_max = 2 ^ 64 - 1

-- `Ordering::then`: less by the first numbers, or equal by them and less or equal by the rest.
abbrev pub then_by : ℕ → ℕ → Bool → Bool
then_by a b rest = ltb a b || (a == b && rest)

-- The order of URLs.
abbrev pub url_le : List ℕ → List ℕ → Bool
url_le [] ys = true
url_le (x ∷ xs) [] = false
url_le (x ∷ xs) (y ∷ ys) = then_by x y (url_le xs ys)

abbrev pub unproven : Bool → ℕ
unproven true = 0
unproven false = 1

abbrev pub ranks_before : CachedRelay → CachedRelay → Bool
ranks_before a b = then_by (unproven a.supports_storage) (unproven b.supports_storage) (
    then_by a.consecutive_failures b.consecutive_failures (
      then_by (unwrap_or a.rtt_ms u64_max) (unwrap_or b.rtt_ms u64_max)
        (then_by b.last_discovered_at a.last_discovered_at (url_le a.url b.url))))

-- `sort_by`, stable, by a test of less or equal.
module _ {A : Type 0} (le : A → A → Bool) where
  abbrev pub place : A → List A → List A
  place x [] = x ∷ []
  place x (y ∷ ys) = let rest = place x ys in if le x y then x ∷ y ∷ ys else y ∷ rest

  abbrev pub sort_by : List A → List A
  sort_by [] = []
  sort_by (x ∷ xs) = place x (sort_by xs)

module _ (parse : List ℕ → Option Url) where
  -- The candidates of the state put through the rule again.
  abbrev pub rank_state : Option PoolState → Option PoolState
  rank_state none = none
  rank_state (some s) = some (record s { candidates = canonical parse s.candidates })

  unfoldable pub rank : Cache → ℕ → Cache
  rank cache now = record {
    state = rank_state cache.state;
    relays = take relay_cache_max_entries (
        sort_by ranks_before
          (filter (λ r. is_fresh r now) (by_url (normalize_relay_url parse) cache)));
  }

  abbrev pub note_listed : Option (List ℕ) → ℕ → List CachedRelay → List CachedRelay
  note_listed none now rs = rs
  note_listed (some url) now rs =
      change_entry (λ r. record r { last_discovered_at = now }) url now rs

  unfoldable pub list_all : List (List ℕ) → ℕ → List CachedRelay → List CachedRelay
  list_all [] now rs = rs
  list_all (url ∷ urls) now rs =
      list_all urls now (note_listed (normalize_relay_url parse url) now rs)

  unfoldable pub record_discovered : Cache → List (List ℕ) → ℕ → Cache
  record_discovered cache urls now =
      rank (record cache { relays = list_all urls now (by_url (normalize_relay_url parse) cache) })
        now

  abbrev pub fails : ℕ → CachedRelay → CachedRelay
  fails now r = record r {
    last_checked_at = some now;
    rtt_ms = none;
    consecutive_failures = r.consecutive_failures + 1;
    supports_control = false;
    supports_storage = false;
  }

  abbrev pub passes : Capability → ℕ → ℕ → CachedRelay → CachedRelay
  passes control now rtt r = record r {
    last_checked_at = some now;
    last_succeeded_at = some now;
    rtt_ms = some rtt;
    consecutive_failures = 0;
    supports_control = true;
  }
  passes storage now rtt r = record r {
    last_checked_at = some now;
    last_succeeded_at = some now;
    rtt_ms = some rtt;
    consecutive_failures = 0;
    supports_control = true;
    supports_storage = true;
  }

  -- The best time of each healthy relay, by its URL in canonical form.
  abbrev pub best_rtt : List ℕ → ℕ → List (List ℕ × ℕ) → List (List ℕ × ℕ)
  best_rtt url rtt [] = (url, rtt) ∷ []
  best_rtt url rtt ((u, best) ∷ rest) =
      let later = best_rtt url rtt rest in
      if bytes_eq url u then (u, min best rtt) ∷ rest else (u, best) ∷ later

  abbrev pub note_rtt : Option (List ℕ) → ℕ → List (List ℕ × ℕ) → List (List ℕ × ℕ)
  note_rtt none rtt best = best
  note_rtt (some url) rtt best = best_rtt url rtt best

  unfoldable pub healthy_rtt : List (List ℕ × ℕ) → List (List ℕ × ℕ) → List (List ℕ × ℕ)
  healthy_rtt best [] = best
  healthy_rtt best ((url, rtt) ∷ healthy) =
      healthy_rtt (note_rtt (normalize_relay_url parse url) rtt best) healthy

  abbrev pub has_passed : List ℕ → List (List ℕ × ℕ) → Bool
  has_passed url [] = false
  has_passed url ((u, rtt) ∷ best) = bytes_eq url u || has_passed url best

  abbrev pub note_failure :
      Option (List ℕ) → List (List ℕ × ℕ) → ℕ → List CachedRelay → List CachedRelay
  note_failure none best now rs = rs
  note_failure (some url) best now rs =
      if has_passed url best then rs else change_entry (fails now) url now rs

  unfoldable pub note_failures :
      List (List ℕ) → List (List ℕ × ℕ) → ℕ → List CachedRelay → List CachedRelay
  note_failures [] best now rs = rs
  note_failures (url ∷ failed) best now rs =
      note_failures failed best now (note_failure (normalize_relay_url parse url) best now rs)

  unfoldable pub note_passes :
      Capability → List (List ℕ × ℕ) → ℕ → List CachedRelay → List CachedRelay
  note_passes capability [] now rs = rs
  note_passes capability ((url, rtt) ∷ best) now rs =
      note_passes capability best now (change_entry (passes capability now rtt) url now rs)

  -- The healthy relays with their times in milliseconds, and the URLs that failed.
  unfoldable pub record_probes : Cache → List (List ℕ × ℕ) → List (List ℕ) → Capability → ℕ → Cache
  record_probes cache healthy failed capability now =
      let best = healthy_rtt [] healthy in
      let failed_noted = note_failures failed best now (by_url (normalize_relay_url parse) cache) in
      rank (record cache { relays = note_passes capability best now failed_noted }) now
