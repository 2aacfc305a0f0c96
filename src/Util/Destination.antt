-- ===== src/Util/Destination.antt =====
-- Where `resolve_destination` saves a file.
use ptransfer_cli.Common.{
  ℕ, zero, suc, ◌+◌, ◌≤◌, ◌<◌, ◌≡◌, refl, sym, ap, ◌∙◌, ◌⊎◌, List, Option, none, some, inl, inr,
  Bool, true, false, Bool-cases, ◌==◌, arith,
}
use ptransfer_cli.Util.{
  candidate, unique_from, OnConflict, prompt, fail, overwrite, FileExistsChoice, overwrite_it,
  rename, cancel,
}

-- Whether the policy, or the person asked, replaces the file that is there.
abbrev pub replaces : OnConflict → Option FileExistsChoice → Bool
replaces prompt none = false
replaces prompt (some overwrite_it) = true
replaces prompt (some rename) = false
replaces prompt (some cancel) = false
replaces fail answer = false
replaces overwrite answer = true

module _ (exists : List ℕ → Bool) where
  -- The loop of `unique_path` from a number on ends at the first numbered name that is free, in as many
  -- rounds as it takes to reach one.
  pub unique_from-free :
      (file_name : List ℕ) (rounds n free : ℕ)
      → n ≤ free
      → free < n + rounds
      → exists (candidate file_name free) ≡ false
      → (m : ℕ) × (unique_from exists file_name rounds n ≡ some (candidate file_name m))
        × (n ≤ m)
        × (m ≤ free)
        × (exists (candidate file_name m) ≡ false)
  unfolding unique_from
  unique_from-free file_name zero n free low high e = absurd (omega arith)
  unique_from-free file_name (suc rounds) n free low high e =
      elim (Bool-cases (exists (candidate file_name n))) [
        | inl taken ↦
            let further : n + 1 ≤ free = past taken in
            let (m, found, low', high', free') =
              unique_from-free file_name rounds (n + 1) free further (omega arith) e in
            (m, rw taken found, omega arith, high', free')
        | inr here ↦ (n, rw here refl, omega arith, low, here)
      ]
    where
      past : exists (candidate file_name n) ≡ true → n + 1 ≤ free
      past taken = elim (Bool-cases (n == free)) [
        | inl same ↦
            let here : n ≡ free = ground (arith, same) in
            let both : true ≡ false =
              sym taken ∙ ap (λ k. exists (candidate file_name k)) here ∙ e in
            absurd cc
        | inr other ↦ ground (arith, low, other)
      ]

  abbrev IsFree : List ℕ → List ℕ → Bool → Type 0
  IsFree safe path replaced = (exists path ≡ false) ⊎ ((path ≡ safe) × (replaced ≡ true))
