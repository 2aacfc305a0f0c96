-- ===== src/NostrFile/Upload/Candidates.antt =====
-- The order in which a chunk's walk tries the relays of the ring.
use ptransfer_cli.Common.{
  ℕ, zero, suc, ◌+◌, ◌-◌, ◌%◌, ◌<◌, ◌≤◌, ◌≡◌, refl, sym, ap, ap₂, ◌∙◌, List, [], ◌∷◌, ◌++◌,
  Bool-cases, inl, inr, not, length, filter, arith,
}
use native.Mathlib.Nat.{mod-lt, mod-eq_of_lt, mod-add-mod, add-mod-mod, mod-eq-sub-mod}
use ptransfer_cli.NostrFile.Upload.{Upload, contains, walk, candidates}

-- The numbers from `start` on.
abbrev pub count_from : ℕ → ℕ → List ℕ
count_from start zero = []
count_from start (suc rounds) = start ∷ count_from (start + 1) rounds

-- The positions of a ring from one of them on, up to the end of the ring and then from its beginning.
abbrev pub ring_from : ℕ → ℕ → List ℕ
ring_from home size = count_from home (size - home) ++ count_from 0 home

-- The positions `step` and more behind a place, counted round the ring.
abbrev behind : ℕ → ℕ → ℕ → ℕ → List ℕ
behind home size step zero = []
behind home size step (suc rounds) = (home + step) % size ∷ behind home size (step + 1) rounds

behind-append :
    (home size step a b : ℕ)
    → behind home size step (a + b) ≡ behind home size step a ++ behind home size (step + a) b
behind-append home size step zero b =
    let none_left : 0 + b ≡ b = omega arith in
    let same : step ≡ step + 0 = omega arith in
    ap (behind home size step) none_left ∙ ap (λ k. behind home size k b) same
behind-append home size step (suc a) b =
    let one_more : suc a + b ≡ suc (a + b) = omega arith in
    let moved : step + 1 + a ≡ step + suc a = omega arith in
    ap (behind home size step) one_more
    ∙ ap (λ l. (home + step) % size ∷ l)
        (behind-append home size (step + 1) a b
          ∙ ap (λ k. behind home size (step + 1) a ++ behind home size k b) moved)

-- Up to the end of the ring the positions count up, and behind it they count up from its beginning.
behind_first :
    (home size step rounds : ℕ)
    → home + step + rounds ≤ size
    → behind home size step rounds ≡ count_from (home + step) rounds
behind_first home size step zero h = refl
behind_first home size step (suc rounds) h =
    let inside : home + step < size = omega (arith, h) in
    let next : home + (step + 1) ≡ home + step + 1 = omega arith in
    ap₂ (λ p l. p ∷ l) (mod-eq_of_lt inside)
      (behind_first home size (step + 1) rounds (omega (arith, h))
        ∙ ap (λ k. count_from k rounds) next)

behind_again :
    (home size step place rounds : ℕ)
    → home + step ≡ size + place
    → place + rounds ≤ size
    → behind home size step rounds ≡ count_from place rounds
behind_again home size step place zero e h = refl
behind_again home size step place (suc rounds) e h =
    let round : size ≤ home + step = omega (arith, e) in
    let left : home + step - size ≡ place = omega (arith, e) in
    let inside : place < size = omega (arith, h) in
    ap₂ (λ p l. p ∷ l) (mod-eq-sub-mod round ∙ ap (λ k. k % size) left ∙ mod-eq_of_lt inside)
      (behind_again home size (step + 1) (place + 1) rounds (omega (arith, e)) (omega (arith, h)))

behind-ring_from : (home size : ℕ) → home < size → behind home size 0 size ≡ ring_from home size
behind-ring_from home size h =
    let parts : size ≡ size - home + home = omega (arith, h) in
    let here : home + 0 ≡ home = omega arith in
    ap (behind home size 0) parts
    ∙ behind-append home size 0 (size - home) home
    ∙ ap₂ (λ a b. a ++ b)
        (behind_first home size 0 (size - home) (omega (arith, h))
          ∙ ap (λ k. count_from k (size - home)) here)
        (behind_again home size (0 + (size - home)) 0 home (omega (arith, h)) (omega (arith, h)))

place_behind :
    (size index offset step : ℕ)
    → (index + (offset + step) % size) % size ≡ ((index + offset) % size + step) % size
place_behind size index offset step =
    let moved : index + (offset + step) ≡ index + offset + step = omega arith in
    add-mod-mod index (offset + step) size
    ∙ ap (λ k. k % size) moved
    ∙ sym (mod-add-mod (index + offset) size step)

-- A walk sorts the positions that it comes by.
walk-behind :
    (demoted : List ℕ) (size index offset step rounds : ℕ)
    → walk demoted size index offset step rounds ≡ (
      filter (λ p. not (contains p demoted)) (behind ((index + offset) % size) size step rounds),
      filter (λ p. contains p demoted) (behind ((index + offset) % size) size step rounds),
    )
unfolding walk
walk-behind demoted size index offset step zero = refl
walk-behind demoted size index offset step (suc rounds) =
    let later = walk-behind demoted size index offset (step + 1) rounds in
    let here = place_behind size index offset step in
    elim (Bool-cases (contains (((index + offset) % size + step) % size) demoted)) [
      | inl e ↦ rw (here, later, e) refl
      | inr e ↦ rw (here, later, e) refl
    ]

-- On a ring with a relay in it, a walk tries each position of the ring once, round the ring from the
-- chunk's home moved by its offset, those that are not demoted before those that are.
pub candidates_lem :
    (u : Upload) (index offset : ℕ)
    → 0 < length u.ring
    → (let order = ring_from ((index + offset) % length u.ring) (length u.ring) in
        candidates u index offset
        ≡ filter (λ p. not (contains p u.demoted)) order
          ++ filter (λ p. contains p u.demoted) order)
unfolding candidates
candidates_lem u index offset h =
    let size = length u.ring in
    let home = (index + offset) % size in
    ap (λ w. w.0 ++ w.1) (walk-behind u.demoted size index offset 0 size)
    ∙ ap (λ l. filter (λ p. not (contains p u.demoted)) l ++ filter (λ p. contains p u.demoted) l)
        (behind-ring_from home size (mod-lt (index + offset) h))
