-- ===== src/NostrFile/RelayUrl/Offered.antt =====
-- What `offer_relays` of relays.rs accepts.
use ptransfer_cli.Common.{
  ℕ, ◌≤◌, ◌≡◌, refl, sym, ap, ap₂, ◌∙◌, List, [], ◌∷◌, ◌++◌, map, append-nil, append_assoc, Option,
  none, some, true, Bool-cases, not, ltb, leb, length, ok, ensure-next, or_err-next, >>=-ok, arith,
  inl, inr,
}
use ptransfer_cli.NostrFile.Control.{has_relay}
use ptransfer_cli.NostrFile.Control.Distinct.{is_distinct, is_distinct-append}
use ptransfer_cli.NostrFile.RelayUrl.{
  Url, too_many, too_few, too_long, not_a_relay, named_twice, text_len, normalize_relay_url,
  offer_loop, offer_relays, keep_new, canonical_from, canonical,
}

length-map {ℓ κ} :
    {A : Type ℓ} {B : Type κ} (f : A → B) (xs : List A) → length (map f xs) ≡ length xs
length-map f [] = refl
length-map f (x ∷ xs) = ap ℕ.suc (length-map f xs)

module _ (parse : List ℕ → Option Url) where
  -- What the loop adds to what it has: the canonical form of each relay, none twice.
  IsOffered : List (List ℕ) → List (List ℕ) → List (List ℕ) → Type 0
  IsOffered before relays out =
      (is_distinct out ≡ true)
      × ((more : List (List ℕ)) × (out ≡ before ++ more)
          × (map (normalize_relay_url parse) relays ≡ map some more))

  offer_loop-IsOffered :
      (before relays out : List (List ℕ))
      → is_distinct before ≡ true
      → offer_loop parse before relays ≡ ok out
      → IsOffered before relays out
  unfolding offer_loop IsOffered
  offer_loop-IsOffered before [] out d h =
      let done : out ≡ before = cc in
      (ap is_distinct done ∙ d, ([], done ∙ sym (append-nil before), refl))
  offer_loop-IsOffered before (relay ∷ relays) out d h =
      let short = ensure-next (not (leb 200 (text_len relay))) too_long _ h in
      let (url, named, rest) =
        or_err-next (normalize_relay_url parse relay) not_a_relay _ short.1 in
      let fresh = ensure-next (not (has_relay url before)) named_twice _ rest in
      let apart = is_distinct-append before url d (ground (arith, fresh)) in
      let (distinct, (more, all_of, each)) =
        offer_loop-IsOffered (before ++ url ∷ []) relays out apart fresh.1 in
      (
        distinct,
        (url ∷ more, all_of ∙ append_assoc before (url ∷ []) more, ap₂ (λ a b. a ∷ b) named each),
      )

  -- The relays that an offer may name are the canonical forms of those it lists, in their order and none
  -- twice, no fewer than the least number and no more than the most.
  pub offer_relays_accepts :
      (relays : List (List ℕ)) (most least : ℕ) (out : List (List ℕ))
      → offer_relays parse relays most least ≡ ok out
      → (map (normalize_relay_url parse) relays ≡ map some out)
        × (is_distinct out ≡ true)
        × (least ≤ length out)
        × (length out ≤ most)
  unfolding offer_relays IsOffered
  offer_relays_accepts relays most least out h =
      let few = ensure-next (not (ltb most (length relays))) too_many _ h in
      let (found, looped, rest) = >>=-ok (offer_loop parse [] relays) _ few.1 in
      let enough = ensure-next (not (ltb (length found) least)) too_few _ rest in
      let same : found ≡ out = cc in
      let (distinct, (more, all_of, each)) = offer_loop-IsOffered [] relays found refl looped in
      let each' = each ∙ ap (map some) (sym all_of ∙ same) in
      let count =
        sym (length-map (normalize_relay_url parse) relays)
        ∙ ap length each'
        ∙ length-map some out in
      (
        each',
        ap is_distinct (sym same) ∙ distinct,
        ground (arith, enough, ap length same),
        ground (arith, few, count),
      )

  keep_new-is_distinct :
      (seen : List (List ℕ)) (found : Option (List ℕ))
      → is_distinct seen ≡ true
      → is_distinct (keep_new parse seen found) ≡ true
  keep_new-is_distinct seen none d = d
  keep_new-is_distinct seen (some url) d = elim (Bool-cases (has_relay url seen)) [
    | inl e ↦ rw e d
    | inr e ↦ rw e (is_distinct-append seen url d e)
  ]

  canonical_from-is_distinct :
      (seen urls : List (List ℕ))
      → is_distinct seen ≡ true
      → is_distinct (canonical_from parse seen urls) ≡ true
  unfolding canonical_from
  canonical_from-is_distinct seen [] d = d
  canonical_from-is_distinct seen (url ∷ urls) d =
      canonical_from-is_distinct (keep_new parse seen (normalize_relay_url parse url)) urls
        (keep_new-is_distinct seen (normalize_relay_url parse url) d)

  pub canonical-is_distinct : (urls : List (List ℕ)) → is_distinct (canonical parse urls) ≡ true
  unfolding canonical
  canonical-is_distinct urls = canonical_from-is_distinct [] urls refl
