-- ===== src/NostrFile/Events.antt =====
-- src/code/nostr_file/events.rs: the events that carry the pieces. An event has what signing keeps of it
-- and the key that signs; `signs` says whether the library could sign. A tag is its list of texts.
mod Runs
pub mod RoundTrip
use ptransfer_cli.Common.{
  ℕ, ◌+◌, ◌%◌, ◌^◌, List, [], ◌∷◌, ◌++◌, Option, none, some, Bool, true, false, not, ◌||◌, ◌==◌,
  if◌then◌else◌, length, is_empty, get_elem?, map, chunks, and_then, Result, ok, err, ensure, ◌>>◌,
}
use ptransfer_cli.Common.Bytes.{codes, bytes_eq}
use ptransfer_cli.Common.Decimal.{decimal, parse_u64}
use ptransfer_cli.NostrFile.{nostr_file_expiration_sec}

pub data Error : Type 0 where
  not_signed : Error

abbrev pub event_kind_file_chunk : ℕ
event_kind_file_chunk = 30_078

abbrev pub nostr_file_encryption_label : List ℕ
nostr_file_encryption_label = codes "aes-256-gcm"

abbrev pub d_tag_filter_batch : ℕ
d_tag_filter_batch = 50

pub record Event : Type 0 where
  pub kind : ℕ
  pub pubkey : ℕ
  pub created_at : ℕ
  pub tags : List (List (List ℕ))
  pub content : List ℕ

pub record ChunkEvent : Type 0 where
  pub transfer_id : List ℕ
  pub index : ℕ
  pub total : ℕ
  pub content : List ℕ
  pub created_at : ℕ

abbrev pub chunk_d_tag : List ℕ → ℕ → List ℕ
chunk_d_tag transfer_id index = transfer_id ++ b':' ∷ decimal index

abbrev pub tag : List ℕ → List ℕ → List (List ℕ)
tag name value = name ∷ value ∷ []

abbrev pub expiration_of : ℕ → List ℕ
expiration_of created_at = decimal ((created_at + nostr_file_expiration_sec) % 2 ^ 64)

abbrev pub chunk_event : ℕ → ChunkEvent → Event
chunk_event pubkey params = record {
  kind = event_kind_file_chunk;
  pubkey = pubkey;
  created_at = params.created_at;
  tags =
      tag (codes "d") (chunk_d_tag params.transfer_id params.index)
      ∷ tag (codes "x") params.transfer_id
      ∷ (codes "chunk" ∷ decimal params.index ∷ decimal params.total ∷ [])
      ∷ tag (codes "encryption") nostr_file_encryption_label
      ∷ tag (codes "expiration") (expiration_of params.created_at)
      ∷ [];
  content = params.content;
}

unfoldable pub build_chunk_event : Bool → ℕ → ChunkEvent → Result Error Event
build_chunk_event signs pubkey params = do ensure signs not_signed; ok (chunk_event pubkey params)

-- `suffix` is the random suffix in hexadecimal.
abbrev pub probe_d_tag : List ℕ → List ℕ
probe_d_tag suffix = codes "probe:" ++ suffix

abbrev pub probe_event : ℕ → List ℕ → List ℕ → ℕ → Event
probe_event pubkey suffix content now = record {
  kind = event_kind_file_chunk;
  pubkey = pubkey;
  created_at = now;
  tags =
      tag (codes "d") (probe_d_tag suffix)
      ∷ tag (codes "x") (codes "probe")
      ∷ (codes "chunk" ∷ codes "0" ∷ codes "1" ∷ [])
      ∷ tag (codes "encryption") nostr_file_encryption_label
      ∷ tag (codes "expiration") (expiration_of now)
      ∷ [];
  content = content;
}

unfoldable pub build_probe_event : Bool → ℕ → List ℕ → List ℕ → ℕ → Result Error (Event × List ℕ)
build_probe_event signs pubkey suffix content now = do
  ensure signs not_signed
  ok (probe_event pubkey suffix content now, probe_d_tag suffix)

abbrev pub is_named : List ℕ → List (List ℕ) → Bool
is_named name [] = false
is_named name (first ∷ rest) = bytes_eq first name

abbrev pub find_tag : List ℕ → List (List (List ℕ)) → Option (List (List ℕ))
find_tag name [] = none
find_tag name (t ∷ tags) =
    let later = find_tag name tags in if is_named name t then some t else later

abbrev pub tag_value : Event → List ℕ → Option (List ℕ)
tag_value event name = and_then (find_tag name event.tags) (λ t. get_elem? t 1)

-- `if !test { return None; }`
abbrev pub require {ℓ} : {A : Type ℓ} → Bool → Option A → Option A
require true next = next
require false next = none

-- `str::parse` of a `usize` takes a plus in front of the digits.
unfoldable pub drop_plus : List ℕ → List ℕ
drop_plus [] = []
drop_plus (c ∷ cs) = if c == b'+' then cs else c ∷ cs

unfoldable pub parse_chunk_event : Event → ℕ → List ℕ → Option (ℕ × List ℕ)
parse_chunk_event event expected_pubkey transfer_id =
    require (event.kind == event_kind_file_chunk) (
      require (event.pubkey == expected_pubkey) (
        and_then (tag_value event (codes "x")) (λ x. require (bytes_eq x transfer_id) (
          and_then (find_tag (codes "chunk") event.tags) (λ chunk_tag.
            and_then (get_elem? chunk_tag 1) (λ text.
              and_then (parse_u64 (drop_plus text)) (λ index.
                and_then (tag_value event (codes "d")) (λ d.
                  require (bytes_eq d (chunk_d_tag transfer_id index))
                    (require (not (is_empty event.content)) (some (index, event.content)))))))))))

-- The identifiers of a filter are a set in the library, here in the order in which they are added.
pub record Filter : Type 0 where
  pub kind : ℕ
  pub author : ℕ
  pub identifiers : List (List ℕ)
  pub limit : ℕ

abbrev pub filter_of : ℕ → List ℕ → List ℕ → Filter
filter_of pubkey transfer_id batch = record {
  kind = event_kind_file_chunk;
  author = pubkey;
  identifiers = map (chunk_d_tag transfer_id) batch;
  limit = length batch;
}

unfoldable pub chunk_filters : ℕ → List ℕ → List ℕ → List Filter
chunk_filters pubkey transfer_id indices =
    map (filter_of pubkey transfer_id) (chunks d_tag_filter_batch indices)
