-- ===== src/NostrFile/RelayCache/Barred.antt =====
-- What `merge_candidates` of relay_cache.rs bars from the candidates.
use ptransfer_cli.Common.{
  ℕ, ◌≡◌, refl, sym, ap, ◌∙◌, List, [], ◌∷◌, ◌++◌, Option, none, some, inl, inr, Bool, true, false,
  Bool-cases, ◌&&◌, ◌||◌, leb, filter, map, length, arith,
}
use ptransfer_cli.Common.Bytes.{bytes_eq, bytes_eq→eq}
use ptransfer_cli.NostrFile.Control.{has_relay}
use ptransfer_cli.NostrFile.Control.Distinct.{has_relay-append}
use ptransfer_cli.NostrFile.RelayCache.{
  Capability, CachedRelay, PoolState, Cache, is_fresh_at, is_healthy, discovery_candidate_cap,
}
use ptransfer_cli.NostrFile.RelayCache.Rank.{place, sort_by}
use ptransfer_cli.NostrFile.RelayCache.Merge.{
  supports, works_before, fails_before, push_new, unique_from, merge_from, unless_seed,
  without_seeds, cached_of, records_for, is_known_working, known_working, merged_of,
  merge_candidates,
}
use ptransfer_cli.NostrFile.RelayUrl.{Url, normalize_relay_url}

-- A relay that is in none of the sources is in none of what is made of them.
module _ (u : List ℕ) where
  push_new-other :
      (kept : List (List ℕ)) (url : List ℕ)
      → has_relay u kept ≡ false
      → bytes_eq u url ≡ false
      → has_relay u (push_new kept url) ≡ false
  push_new-other kept url h e = ground (arith, h, e, has_relay-append u kept (url ∷ []))

  unique_from-other :
      (kept urls : List (List ℕ))
      → has_relay u kept ≡ false
      → has_relay u urls ≡ false
      → has_relay u (unique_from kept urls) ≡ false
  unfolding unique_from
  unique_from-other kept [] h k = h
  unique_from-other kept (url ∷ urls) h k =
      unique_from-other (push_new kept url) urls (push_new-other kept url h (ground (arith, k)))
        (ground (arith, k))

  merge_from-other :
      (kept urls : List (List ℕ))
      → has_relay u kept ≡ false
      → has_relay u urls ≡ false
      → has_relay u (merge_from kept urls) ≡ false
  unfolding merge_from
  merge_from-other kept [] h k = h
  merge_from-other kept (url ∷ urls) h k =
      let next = push_new-other kept url h (ground (arith, k)) in
      let rest = merge_from-other (push_new kept url) urls next (ground (arith, k)) in
      elim (Bool-cases (leb discovery_candidate_cap (length (push_new kept url)))) [
        | inl e ↦ rw e next
        | inr e ↦ rw e rest
      ]

  has_relay-place :
      {A : Type 0} (name : A → List ℕ) (le : A → A → Bool) (x : A) (xs : List A)
      → has_relay u (map name (place le x xs)) ≡ bytes_eq u (name x) || has_relay u (map name xs)
  has_relay-place name le x [] = refl
  has_relay-place name le x (y ∷ ys) = ground (arith, has_relay-place name le x ys)

  has_relay-sort_by :
      {A : Type 0} (name : A → List ℕ) (le : A → A → Bool) (xs : List A)
      → has_relay u (map name (sort_by le xs)) ≡ has_relay u (map name xs)
  has_relay-sort_by name le [] = refl
  has_relay-sort_by name le (x ∷ xs) =
      has_relay-place name le x (sort_by le xs)
      ∙ ap (λ b. bytes_eq u (name x) || b) (has_relay-sort_by name le xs)

  map_id : (xs : List (List ℕ)) → map (λ x. x) xs ≡ xs
  map_id [] = refl
  map_id (x ∷ xs) = ap (λ l. x ∷ l) (map_id xs)

  sorted-other :
      (le : List ℕ → List ℕ → Bool) (xs : List (List ℕ))
      → has_relay u xs ≡ false
      → has_relay u (sort_by le xs) ≡ false
  sorted-other le xs h =
      ap (has_relay u) (sym (map_id (sort_by le xs)))
      ∙ has_relay-sort_by (λ x. x) le xs
      ∙ ap (has_relay u) (map_id xs)
      ∙ h

  module _ (parse : List ℕ → Option Url) (seeds : List (List ℕ))
      (seed : has_relay u seeds ≡ true) where
    other_name :
        (url : List ℕ) (rest : List (List ℕ))
        → has_relay url seeds ≡ false
        → has_relay u rest ≡ false
        → has_relay u (url ∷ rest) ≡ false
    other_name url rest e h = elim (Bool-cases (bytes_eq u url)) [
      | inl same ↦
          let wrong : true ≡ false =
            sym seed ∙ ap (λ x. has_relay x seeds) (bytes_eq→eq u url same) ∙ e in
          absurd cc
      | inr n ↦ rw n h
    ]

    unless_seed-other :
        (o : Option (List ℕ)) (rest : List (List ℕ))
        → has_relay u rest ≡ false
        → has_relay u (unless_seed parse seeds o rest) ≡ false
    unless_seed-other none rest h = h
    unless_seed-other (some url) rest h = elim (Bool-cases (has_relay url seeds)) [
      | inl e ↦ rw e h
      | inr e ↦ rw e (other_name url rest e h)
    ]

    without_seeds-other :
        (urls : List (List ℕ)) → has_relay u (without_seeds parse seeds urls) ≡ false
    without_seeds-other [] = refl
    without_seeds-other (url ∷ urls) =
        unless_seed-other (normalize_relay_url parse url) (without_seeds parse seeds urls)
          (without_seeds-other urls)

    cached_of-other :
        (state : Option PoolState) (now : ℕ) → has_relay u (cached_of parse seeds state now) ≡ false
    cached_of-other none now = refl
    cached_of-other (some s) now = elim (Bool-cases (is_fresh_at s.discovered_at now)) [
      | inl e ↦ rw e (without_seeds-other s.candidates)
      | inr e ↦ rw e refl
    ]

    working-other :
        (capability : Capability) (rs : List CachedRelay)
        → has_relay u (map (λ r. r.url) (filter (is_known_working parse seeds capability) rs))
          ≡ false
    working-other capability [] = refl
    working-other capability (r ∷ rs) = elim (Bool-cases (has_relay r.url seeds)) [
      | inl e ↦ rw e (working-other capability rs)
      | inr e ↦ elim (Bool-cases (supports capability r && is_healthy r)) [
        | inl w ↦
            rw (e, w)
              (other_name r.url
                (map (λ q. q.url) (filter (is_known_working parse seeds capability) rs)) e
                (working-other capability rs))
        | inr w ↦ rw (e, w) (working-other capability rs)
      ]
    ]

    -- A seed that this transfer did not discover is no candidate, whatever the cache holds.
    pub merge_candidates-other :
        (cache : Cache) (discovered : List (List ℕ)) (capability : Capability) (now : ℕ)
        → has_relay u discovered ≡ false
        → has_relay u (merge_candidates parse seeds cache discovered capability now).1 ≡ false
    unfolding merge_candidates merged_of known_working
    merge_candidates-other cache discovered capability now h =
        let rs = records_for parse seeds cache discovered now in
        let cached = cached_of parse seeds cache.state now in
        let working = known_working parse seeds capability rs in
        let ranked = sort_by (fails_before rs) (unique_from [] (discovered ++ cached)) in
        let listed =
          has_relay-append u discovered cached
          ∙ ground (arith, h, cached_of-other cache.state now) in
        let later =
          sorted-other (fails_before rs) (unique_from [] (discovered ++ cached))
            (unique_from-other [] (discovered ++ cached) refl listed) in
        let first =
          has_relay-sort_by (λ r. r.url) works_before
            (filter (is_known_working parse seeds capability) rs)
          ∙ working-other capability rs in
        merge_from-other [] (working ++ ranked) refl
          (has_relay-append u working ranked ∙ ground (arith, first, later))
