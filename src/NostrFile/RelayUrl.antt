-- ===== src/NostrFile/RelayUrl.antt =====
-- src/code/nostr_file/relays.rs: what counts as a clearnet relay, and the relays of an offer. A text
-- is the list of its characters; the `url` crate's parser is a parameter.
pub mod Offered
use ptransfer_cli.Common.{
  ℕ, ◌+◌, List, [], ◌∷◌, ◌++◌, Option, none, some, Bool, true, false, not, ◌&&◌, ◌||◌, ltb, leb,
  ◌==◌, if◌then◌else◌, length, is_empty, drop, ◌-◌, all, and_then, Result, ok, err, ◌>>=◌, ◌>>◌,
  ensure, or_err,
}
use ptransfer_cli.Common.Bytes.{codes, bytes_eq}
use ptransfer_cli.Common.Decimal.{is_digit, decimal}
use ptransfer_cli.NostrFile.Control.{has_relay}
use ptransfer_cli.Util.{is_whitespace, trim_matches, trim_end}

-- What the parser gives of a URL.
pub record Url : Type 0 where
  pub scheme : List ℕ
  pub username : List ℕ
  pub password : Option (List ℕ)
  pub host : Option (List ℕ)
  pub port : Option ℕ
  pub path : List ℕ
  pub query : Option (List ℕ)

pub data Error : Type 0 where
  too_many too_long not_a_relay named_twice too_few : Error

-- `str::ends_with_text`
abbrev pub ends_with_text : List ℕ → List ℕ → Bool
ends_with_text text suffix =
    leb (length suffix) (length text) && bytes_eq (drop (length text - length suffix) text) suffix

-- `str::contains` of a character.
abbrev pub has_char : ℕ → List ℕ → Bool
has_char c [] = false
has_char c (x ∷ xs) = x == c || has_char c xs

abbrev pub is_reserved_domain : List ℕ → List ℕ → Bool
is_reserved_domain host domain = bytes_eq host domain || ends_with_text host (b'.' ∷ domain)

-- The hosts that are refused by name.
unfoldable pub is_refused_host : List ℕ → Bool
is_refused_host host =
    is_empty host
    || bytes_eq host (codes "localhost")
    || ends_with_text host (codes ".localhost")
    || ends_with_text host (codes ".onion")
    || ends_with_text host (codes ".local")
    || ends_with_text host (codes ".test")
    || ends_with_text host (codes ".invalid")
    || is_reserved_domain host (codes "example.com")
    || is_reserved_domain host (codes "example.net")
    || is_reserved_domain host (codes "example.org")

unfoldable pub is_ip_literal : List ℕ → Bool
is_ip_literal host = all (λ c. is_digit c || c == b'.') host || has_char b':' host

abbrev pub port_text : Option ℕ → List ℕ
port_text none = []
port_text (some port) = b':' ∷ decimal port

abbrev pub query_text : Option (List ℕ) → List ℕ
query_text none = []
query_text (some query) = b'?' ∷ query

-- `format!("wss://{host}{port}{path}{query}")`
unfoldable pub url_text : Url → List ℕ → List ℕ
url_text url host =
    codes "wss://"
    ++ (host
        ++ (port_text url.port ++ (trim_end (λ c. c == b'/') url.path ++ query_text url.query)))

abbrev pub is_none : Option (List ℕ) → Bool
is_none none = true
is_none (some t) = false

unfoldable pub of_url : Url → Option (List ℕ)
of_url url =
    if not (bytes_eq url.scheme (codes "wss"))
      || not (is_empty url.username)
      || not (is_none url.password)
    then none
    else and_then url.host (λ host.
      if is_refused_host host
      then none
      else if is_ip_literal host
      then none
      else some (url_text url host))

-- `str::len`: the bytes of a text in UTF-8.
abbrev pub char_len : ℕ → ℕ
char_len c = if ltb c 0x80 then 1 else if ltb c 0x800 then 2 else if ltb c 0x1_0000 then 3 else 4

abbrev pub text_len : List ℕ → ℕ
text_len [] = 0
text_len (c ∷ cs) = char_len c + text_len cs

module _ (parse : List ℕ → Option Url) where
  unfoldable pub normalize_relay_url : List ℕ → Option (List ℕ)
  normalize_relay_url raw = and_then (parse (trim_matches is_whitespace raw)) of_url

  -- The filters of `canonical` over one URL, `seen` being what was kept.
  abbrev pub keep_new : List (List ℕ) → Option (List ℕ) → List (List ℕ)
  keep_new seen none = seen
  keep_new seen (some url) = if has_relay url seen then seen else seen ++ url ∷ []

  unfoldable pub canonical_from : List (List ℕ) → List (List ℕ) → List (List ℕ)
  canonical_from seen [] = seen
  canonical_from seen (url ∷ urls) = canonical_from (keep_new seen (normalize_relay_url url)) urls

  unfoldable pub canonical : List (List ℕ) → List (List ℕ)
  unfolding canonical_from
  canonical urls = canonical_from [] urls

  -- The loop of `offer_relays`.
  unfoldable pub offer_loop : List (List ℕ) → List (List ℕ) → Result Error (List (List ℕ))
  offer_loop canonical [] = ok canonical
  offer_loop canonical (relay ∷ relays) = do
    ensure (not (leb 200 (text_len relay))) too_long
    normalized ← or_err (normalize_relay_url relay) not_a_relay
    ensure (not (has_relay normalized canonical)) named_twice
    offer_loop (canonical ++ normalized ∷ []) relays

  unfoldable pub offer_relays : List (List ℕ) → ℕ → ℕ → Result Error (List (List ℕ))
  unfolding offer_loop
  offer_relays relays most least = do
    ensure (not (ltb most (length relays))) too_many
    canonical ← offer_loop [] relays
    ensure (not (ltb (length canonical) least)) too_few
    ok canonical
