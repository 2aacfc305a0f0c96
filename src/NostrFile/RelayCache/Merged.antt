-- ===== src/NostrFile/RelayCache/Merged.antt =====
-- What `merge_candidates` of relay_cache.rs can hand to a transfer.
use ptransfer_cli.Common.{
  ℕ, suc, ◌≤◌, ◌<◌, ◌≡◌, refl, ap, List, [], ◌∷◌, ◌++◌, Option, inl, inr, true, false, Bool-cases,
  leb, length, arith,
}
use ptransfer_cli.NostrFile.Control.{has_relay}
use ptransfer_cli.NostrFile.Control.Distinct.{is_distinct, is_distinct-append}
use ptransfer_cli.NostrFile.RelayCache.{Capability, Cache, discovery_candidate_cap}
use ptransfer_cli.NostrFile.RelayCache.Rank.{sort_by}
use ptransfer_cli.NostrFile.RelayCache.Merge.{
  fails_before, push_new, unique_from, merge_from, cached_of, records_for, known_working, merged_of,
  merge_candidates,
}
use ptransfer_cli.NostrFile.RelayUrl.{Url}

push_new-is_distinct :
    (kept : List (List ℕ)) (url : List ℕ)
    → is_distinct kept ≡ true
    → is_distinct (push_new kept url) ≡ true
push_new-is_distinct kept url d = elim (Bool-cases (has_relay url kept)) [
  | inl e ↦ rw e d
  | inr e ↦ rw e (is_distinct-append kept url d e)
]

length_append_one :
    (kept : List (List ℕ)) (url : List ℕ) → length (kept ++ url ∷ []) ≡ suc (length kept)
length_append_one [] url = refl
length_append_one (x ∷ kept) url = ap suc (length_append_one kept url)

length-push_new :
    (kept : List (List ℕ)) (url : List ℕ) → length (push_new kept url) ≤ suc (length kept)
length-push_new kept url = ground (arith, length_append_one kept url)

merge_from-is_distinct :
    (kept urls : List (List ℕ))
    → is_distinct kept ≡ true
    → is_distinct (merge_from kept urls) ≡ true
unfolding merge_from
merge_from-is_distinct kept [] d = d
merge_from-is_distinct kept (url ∷ urls) d =
    let next = push_new-is_distinct kept url d in
    let rest = merge_from-is_distinct (push_new kept url) urls next in
    elim (Bool-cases (leb discovery_candidate_cap (length (push_new kept url)))) [
      | inl e ↦ rw e next
      | inr e ↦ rw e rest
    ]

below_cap : (n : ℕ) → leb discovery_candidate_cap n ≡ false → n < 150
below_cap n h = ground (arith, h)

length-merge_from :
    (kept urls : List (List ℕ)) → length kept < 150 → length (merge_from kept urls) ≤ 150
unfolding merge_from
length-merge_from kept [] h = omega (arith, h)
length-merge_from kept (url ∷ urls) h =
    let next : length (push_new kept url) ≤ 150 = omega (arith, h, length-push_new kept url) in
    elim (Bool-cases (leb discovery_candidate_cap (length (push_new kept url)))) [
      | inl e ↦ rw e next
      | inr e ↦
          let rest =
            length-merge_from (push_new kept url) urls (below_cap (length (push_new kept url)) e) in
          rw e rest
    ]

-- The candidates of a transfer are 150 at most, none twice.
pub merge_candidates-is_distinct :
    (parse : List ℕ → Option Url) (seeds : List (List ℕ)) (cache : Cache)
    (discovered : List (List ℕ)) (capability : Capability) (now : ℕ)
    → (is_distinct (merge_candidates parse seeds cache discovered capability now).1 ≡ true)
      × (length (merge_candidates parse seeds cache discovered capability now).1 ≤ 150)
unfolding merge_candidates merged_of
merge_candidates-is_distinct parse seeds cache discovered capability now =
    let rs = records_for parse seeds cache discovered now in
    let found =
      known_working parse seeds capability rs
      ++ sort_by (fails_before rs)
          (unique_from [] (discovered ++ cached_of parse seeds cache.state now)) in
    (merge_from-is_distinct [] found refl, length-merge_from [] found (omega arith))
