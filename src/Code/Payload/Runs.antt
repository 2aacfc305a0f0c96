-- ===== src/Code/Payload/Runs.antt =====
-- The container of payload.rs on an offer with two relays, over a parser that takes a text for its host
-- and the toy decoder, whose streams end with a zero byte.
use ptransfer_cli.Common.{
  ℕ, ◌^◌, ◌-◌, ◌≡◌, refl, List, [], ◌∷◌, ◌++◌, Option, none, some, ok, err, true, false, inr,
  replicate, arith,
}
use ptransfer_cli.Common.Bytes.{codes, bytes_eq}
use ptransfer_cli.Common.Int.{pos, negsuc}
use ptransfer_cli.Code.Payload.{
  SignalingPayload, offer, validate, validate_offer, fallback_relays_from, anon_false,
  check_freshness, expired,
}
use ptransfer_cli.Code.Payload.Container.{
  inner_magic, seed_for_bucket, xorshift32, xor_obfuscate, encode, decode,
}
use ptransfer_cli.Code.Payload.RoundTrip.{decode-encode_in_window}
use ptransfer_cli.NostrFile.RelayUrl.{
  Url, offer_relays, offer_loop, normalize_relay_url, of_url, is_refused_host, is_ip_literal,
  url_text,
}
use ptransfer_cli.Util.{trim_start, trim_end}
use ptransfer_cli.Wire.{deflate_raw}
use ptransfer_cli.Wire.Flate.Toy.{toy_decoder}

abbrev parse : List ℕ → Option Url
parse text = some record {
  scheme = codes "wss";
  username = [];
  password = none;
  host = some text;
  port = none;
  path = codes "/";
  query = none;
}

abbrev sample : SignalingPayload
sample = record {
  kind = offer;
  sdp = codes "v=0";
  candidates = [];
  created_at = pos 1_700_000_000_000;
  public_key = replicate 65 4;
  confirm = none;
  file_name = some (codes "report.pdf");
  file_size = some 1024;
  content_encoding = some deflate_raw;
  mime_type = none;
  salt = some (replicate 16 9);
  relays = some (codes "relay.one" ∷ codes "relay.two" ∷ []);
  anon = none;
}

abbrev no_base64 : List ℕ → Option (List ℕ)
no_base64 text = none

abbrev json_of : SignalingPayload → Option (List ℕ)
json_of p = some (codes "{}")

abbrev of_json : List ℕ → Option SignalingPayload
of_json json = some sample

abbrev pack : List ℕ → Option (List ℕ)
pack json = some (json ++ 0 ∷ [])

sample_valid : validate parse no_base64 sample ≡ ok tt
unfolding validate validate_offer fallback_relays_from offer_relays offer_loop normalize_relay_url
    of_url is_refused_host is_ip_literal url_text trim_start trim_end
sample_valid = refl

never_false :
    validate parse no_base64 (record sample { relays = none; anon = some false }) ≡ err anon_false
unfolding validate validate_offer
never_false = refl

two_hours_old : check_freshness (pos 7_200_001) (pos 3_600_000) ≡ err expired
unfolding check_freshness
two_hours_old = refl

from_the_future : check_freshness (pos 0) (pos 3_600_000) ≡ ok tt
unfolding check_freshness
from_the_future = refl

far_past : check_freshness (pos 5) (negsuc (2 ^ 63 - 1)) ≡ err expired
unfolding check_freshness
far_past = refl

apart :
    bytes_eq
      (xor_obfuscate
        (xor_obfuscate inner_magic (seed_for_bucket (pos 0)))
        (seed_for_bucket (pos 1)))
      inner_magic
    ≡ false
unfolding seed_for_bucket xorshift32 xor_obfuscate
apart = refl

abbrev code : List ℕ
code = codes "PT01" ++ xor_obfuscate (inner_magic ++ codes "{}" ++ 0 ∷ []) (seed_for_bucket (pos 0))

decode-encode_in_window_example :
    (shown : List ℕ) × (encode json_of pack 3_599_000 sample ≡ ok shown)
    × (decode toy_decoder of_json parse no_base64 3_600_000 shown ≡ ok sample)
decode-encode_in_window_example =
    decode-encode_in_window toy_decoder of_json parse no_base64 json_of pack sample 3_599_000
      3_600_000 (codes "{}") (codes "{}" ++ 0 ∷ []) (record { ins = 3; outs = 2; over = true })
      sample_valid refl refl refl (omega arith) refl (omega arith) (omega arith) refl
      (inr (refl, apart))
