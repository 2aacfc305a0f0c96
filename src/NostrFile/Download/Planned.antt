-- ===== src/NostrFile/Download/Planned.antt =====
-- What a fetch cycle of download.rs asks the relays for.
use ptransfer_cli.Common.{
  is_some, ℕ, zero, suc, ◌+◌, ◌≤◌, ◌<◌, ◌≡◌, refl, sym, subst, ◌∙◌, List, [], ◌∷◌, ◌++◌, none, some,
  inl, inr, Bool, true, false, Bool-cases, ◌&&◌, ◌||◌, ◌==◌, get_or, if◌then◌else◌, arith,
}
use ptransfer_cli.NostrFile.Download.{Download, placement}
use ptransfer_cli.NostrFile.Download.Cycle.{
  is_same_placement, is_recent, tries, tried_from, is_asked,
}

-- Whether a piece is held.
abbrev pub is_held : Download → ℕ → Bool
is_held s i = is_some (get_or s.chunks i none)

-- Whether a placement waits to be tried again.
abbrev pub is_cooling : Download → ℕ → ℕ → ℕ → ℕ → Bool
is_cooling s now i position generation =
    is_same_placement (get_or s.last_tried i none) position generation
    && is_recent (get_or s.last_tried_at i none) now

is_asked-append :
    (xs ys : List (ℕ × ℕ × ℕ)) (position i : ℕ)
    → is_asked (xs ++ ys) position i ≡ is_asked xs position i || is_asked ys position i
is_asked-append [] ys position i = refl
is_asked-append ((j, p, g) ∷ xs) ys position i = ground (arith, is_asked-append xs ys position i)

asked_later :
    (b : Bool) (xs rest : List (ℕ × ℕ × ℕ)) (position i : ℕ)
    → is_asked rest position i ≡ true
    → is_asked (if b then rest else xs ++ rest) position i ≡ true
asked_later true xs rest position i h = h
asked_later false xs rest position i h = is_asked-append xs rest position i ∙ ground (arith, h)

asked_now :
    (s : Download) (now i position generation : ℕ) (rest : List (ℕ × ℕ × ℕ))
    → is_held s i ≡ false
    → placement s i ≡ some (position, generation)
    → is_cooling s now i position generation ≡ false
    → is_asked
        (if is_some (get_or s.chunks i none) then rest else tries s now i (placement s i) ++ rest)
        position
        i
      ≡ true
unfolding tries
asked_now s now i position generation rest missing at cooled =
    rw (missing, at, cooled) (ground arith)

-- A chunk that is announced, missing and not cooling is asked of its relay.
pub is_asked-due :
    (s : Download) (now index rounds i : ℕ) {position generation : ℕ}
    → index ≤ i
    → i < index + rounds
    → is_held s i ≡ false
    → placement s i ≡ some (position, generation)
    → is_cooling s now i position generation ≡ false
    → is_asked (tried_from s now index rounds) position i ≡ true
unfolding tried_from tries
is_asked-due s now index zero i low high missing at cooled = absurd (omega arith)
is_asked-due s now index (suc rounds) i {position = position} {generation = generation} low high
      missing at cooled =
    elim (Bool-cases (index == i)) [
      | inl own ↦
          let same : index ≡ i = ground (arith, own) in
          subst
            (λ j.
              is_asked
                (if is_some (get_or s.chunks j none)
                  then tried_from s now (index + 1) rounds
                  else tries s now j (placement s j) ++ tried_from s now (index + 1) rounds)
                position i
              ≡ true)
            (sym same) (asked_now s now i position generation _ missing at cooled)
      | inr other ↦
          asked_later (is_some (get_or s.chunks index none)) (tries s now index (placement s index))
            (tried_from s now (index + 1) rounds) position i
            (is_asked-due s now (index + 1) rounds i (ground (arith, other, low)) (omega arith)
              missing at cooled)
    ]
