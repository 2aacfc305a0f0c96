-- ===== src/NostrFile/Events/RoundTrip.antt =====
-- Chunk events written and read, and the filters that ask for them.
use ptransfer_cli.Common.{
  ℕ, ◌^◌, ◌<◌, ◌≡◌, suc, refl, sym, ap, inl, inr, Bool-cases, All, all, ◌∙◌, List, [], ◌∷◌, ◌++◌,
  none, some, true, false, ◌==◌, is_empty, length, map, chunks, concat, concat-chunks, ok, arith,
}
use ptransfer_cli.Common.Bytes.{codes, bytes_eq, bytes_eq_refl}
use ptransfer_cli.Common.Decimal.{is_digit, decimal, decimal-digits, parse_u64-decimal}
use ptransfer_cli.NostrFile.Events.{
  Event, ChunkEvent, chunk_d_tag, chunk_event, build_chunk_event, probe_event, drop_plus,
  parse_chunk_event, Filter, filter_of, chunk_filters, d_tag_filter_batch,
}

drop_plus_digits : (text : List ℕ) → all is_digit text ≡ true → drop_plus text ≡ text
unfolding drop_plus
drop_plus_digits [] h = refl
drop_plus_digits (c ∷ cs) h = let other : (c == b'+') ≡ false = ground (arith, h) in rw other refl

drop_plus-decimal : (n : ℕ) → drop_plus (decimal n) ≡ decimal n
drop_plus-decimal n = drop_plus_digits (decimal n) (decimal-digits n)

-- A chunk event that could be signed is read by a receiver who expects its author and its transfer as
-- the index and the content that it was built from, for an index of 64 bits and content that is not
-- empty.
pub parse_chunk_event-build_chunk_event :
    (pubkey : ℕ) (params : ChunkEvent)
    → params.index < 2 ^ 64
    → is_empty params.content ≡ false
    → (event : Event) × (build_chunk_event true pubkey params ≡ ok event)
      × (parse_chunk_event event pubkey params.transfer_id ≡ some (params.index, params.content))
unfolding build_chunk_event parse_chunk_event
parse_chunk_event-build_chunk_event pubkey params small full =
    let self : (pubkey == pubkey) ≡ true = ground arith in
    (
      chunk_event pubkey params,
      refl,
      rw
          (
            self,
            bytes_eq_refl params.transfer_id,
            drop_plus-decimal params.index,
            parse_u64-decimal params.index small,
            bytes_eq_refl (chunk_d_tag params.transfer_id params.index),
            full,
          )
          refl,
    )

-- A probe is read as a chunk of no transfer but one that is called "probe".
parse_chunk_event-probe_event :
    (pubkey expected now : ℕ) (suffix content transfer_id : List ℕ)
    → bytes_eq (codes "probe") transfer_id ≡ false
    → parse_chunk_event (probe_event pubkey suffix content now) expected transfer_id ≡ none
unfolding parse_chunk_event
parse_chunk_event-probe_event pubkey expected now suffix content transfer_id other =
    elim (Bool-cases (pubkey == expected)) [ inl e ↦ rw (e, other) refl | inr e ↦ rw e refl ]

map-append : (f : ℕ → List ℕ) (xs ys : List ℕ) → map f (xs ++ ys) ≡ map f xs ++ map f ys
map-append f [] ys = refl
map-append f (x ∷ xs) ys = ap (λ t. f x ∷ t) (map-append f xs ys)

length-map : (f : ℕ → List ℕ) (xs : List ℕ) → length (map f xs) ≡ length xs
length-map f [] = refl
length-map f (x ∷ xs) = ap suc (length-map f xs)

-- What the filters ask for, all together.
abbrev pub asked : List Filter → List (List ℕ)
asked filters = concat (map (λ (f : Filter). f.identifiers) filters)

asked-filter_of :
    (pubkey : ℕ) (transfer_id : List ℕ) (batches : List (List ℕ))
    → asked (map (filter_of pubkey transfer_id) batches)
      ≡ map (chunk_d_tag transfer_id) (concat batches)
asked-filter_of pubkey transfer_id [] = refl
asked-filter_of pubkey transfer_id (batch ∷ batches) =
    ap (λ t. map (chunk_d_tag transfer_id) batch ++ t) (asked-filter_of pubkey transfer_id batches)
    ∙ sym (map-append (chunk_d_tag transfer_id) batch (concat batches))

abbrev IsOf : ℕ → Filter → Type 0
IsOf pubkey f = (f.author ≡ pubkey) × (f.limit ≡ length f.identifiers)

filter_of-IsOf :
    (pubkey : ℕ) (transfer_id : List ℕ) (batches : List (List ℕ))
    → All (IsOf pubkey) (map (filter_of pubkey transfer_id) batches)
filter_of-IsOf pubkey transfer_id [] = tt
filter_of-IsOf pubkey transfer_id (batch ∷ batches) = (
  (refl, sym (length-map (chunk_d_tag transfer_id) batch)),
  filter_of-IsOf pubkey transfer_id batches,
)

-- The filters of a fetch ask, all together, for exactly the chunks wanted, in their order, of one author,
-- and each for as many events as it names.
pub asked-chunk_filters :
    (pubkey : ℕ) (transfer_id indices : List ℕ)
    → (asked (chunk_filters pubkey transfer_id indices) ≡ map (chunk_d_tag transfer_id) indices)
      × All
          (λ f. (f.author ≡ pubkey) × (f.limit ≡ length f.identifiers))
          (chunk_filters pubkey transfer_id indices)
unfolding chunk_filters
asked-chunk_filters pubkey transfer_id indices = (
  asked-filter_of pubkey transfer_id (chunks d_tag_filter_batch indices)
      ∙ ap (map (chunk_d_tag transfer_id)) (concat-chunks 49 indices),
  filter_of-IsOf pubkey transfer_id (chunks d_tag_filter_batch indices),
)
