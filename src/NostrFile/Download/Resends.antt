-- ===== src/NostrFile/Download/Resends.antt =====
-- The re-sends that an announcement of upload.rs lists, as download.rs looks them up.
use ptransfer_cli.Common.{
  ℕ, zero, suc, ◌+◌, ◌≤◌, ◌<◌, ◌≡◌, refl, sym, subst, ap, ◌∙◌, List, [], ◌∷◌, Option, none, some,
  inl, inr, Bool, true, false, Bool-cases, ◌==◌, get_or, if◌then◌else◌, Result, ok, err, ◌>>=◌,
  or_err, with_err, arith,
}
use ptransfer_cli.NostrFile.Control
use ptransfer_cli.NostrFile.Control.{SenderMessage, avail, check_relays, encode_position}
use ptransfer_cli.NostrFile.Upload.{
  Upload, announce_from, announcement, lost_placement, bad_position,
}
use ptransfer_cli.NostrFile.Upload
use ptransfer_cli.NostrFile.Download.{generation_of, or_zero}

abbrev with_generation : ℕ → ℕ → List (ℕ × ℕ) → List (ℕ × ℕ)
with_generation index generation gens = if generation == 0 then gens else (index, generation) ∷ gens

-- A round of the loop, on what the rounds after it give.
abbrev add_one : ℕ → ℕ → ℕ → List ℕ × List (ℕ × ℕ) → Result Upload.Error (List ℕ × List (ℕ × ℕ))
add_one index generation character (chars, gens) =
    ok (character ∷ chars, with_generation index generation gens)

later_gens :
    (index generation character : ℕ) (rest : Result Upload.Error (List ℕ × List (ℕ × ℕ)))
    {chars : List ℕ} {gens : List (ℕ × ℕ)}
    → (rest >>= add_one index generation character) ≡ ok (chars, gens)
    → (c : List ℕ) × (g : List (ℕ × ℕ)) × (rest ≡ ok (c, g))
      × (with_generation index generation g ≡ gens)
later_gens index generation character (err e) h = cc
later_gens index generation character (ok (c, g)) h = (c, g, refl, cc)

written_gens :
    (index generation : ℕ) (written : Result Control.Error ℕ)
    (rest : Result Upload.Error (List ℕ × List (ℕ × ℕ))) {chars : List ℕ} {gens : List (ℕ × ℕ)}
    → (with_err written bad_position >>= (λ character. rest >>= add_one index generation character))
      ≡ ok (chars, gens)
    → (c : List ℕ) × (g : List (ℕ × ℕ)) × (rest ≡ ok (c, g))
      × (with_generation index generation g ≡ gens)
written_gens index generation (err e) rest h = cc
written_gens index generation (ok character) rest h = later_gens index generation character rest h

placed_gens :
    (index generation : ℕ) (placed : Option ℕ) (rest : Result Upload.Error (List ℕ × List (ℕ × ℕ)))
    {chars : List ℕ} {gens : List (ℕ × ℕ)}
    → (or_err placed lost_placement >>= (λ position.
        with_err (encode_position position) bad_position
        >>= (λ character. rest >>= add_one index generation character)))
      ≡ ok (chars, gens)
    → (c : List ℕ) × (g : List (ℕ × ℕ)) × (rest ≡ ok (c, g))
      × (with_generation index generation g ≡ gens)
placed_gens index generation none rest h = cc
placed_gens index generation (some position) rest h =
    written_gens index generation (encode_position position) rest h

-- The re-sends read for the chunks from `index` on, `rounds` of them, and for none before.
abbrev pub Reads : Upload → ℕ → ℕ → List (ℕ × ℕ) → Type 0
Reads u index rounds gens =
    ((i : ℕ) → i < index → generation_of gens i ≡ none)
    × ((i : ℕ)
        → index ≤ i
        → i < index + rounds
        → or_zero (generation_of gens i) ≡ get_or u.generation i 0)

-- What a lookup makes of an entry and of what the later entries say.
overrides : (b : Bool) (g : ℕ) (later : Option ℕ) → Option ℕ
overrides b g none = if b then some g else none
overrides b g (some h) = some h

generation_of-cons :
    (index g : ℕ) (gens : List (ℕ × ℕ)) (i : ℕ)
    → generation_of ((index, g) ∷ gens) i ≡ overrides (index == i) g (generation_of gens i)
unfolding generation_of overrides
generation_of-cons index g gens i = by_later (generation_of gens i)
  where
    by_later :
        (later : Option ℕ)
        → elim later [ none ↦ if index == i then some g else none | some h ↦ some h ]
          ≡ overrides (index == i) g later
    by_later none = refl
    by_later (some h) = refl

overrides_other : (g : ℕ) (later : Option ℕ) → overrides false g later ≡ later
unfolding overrides
overrides_other g none = refl
overrides_other g (some h) = refl

generation_of-other :
    (index g : ℕ) (gens : List (ℕ × ℕ)) (i : ℕ)
    → (index == i) ≡ false
    → generation_of ((index, g) ∷ gens) i ≡ generation_of gens i
generation_of-other index g gens i e =
    generation_of-cons index g gens i
    ∙ ap (λ b. overrides b g (generation_of gens i)) e
    ∙ overrides_other g (generation_of gens i)

generation_of-own :
    (index g : ℕ) (gens : List (ℕ × ℕ))
    → generation_of gens index ≡ none
    → generation_of ((index, g) ∷ gens) index ≡ some g
unfolding overrides
generation_of-own index g gens e =
    let self : (index == index) ≡ true = ground arith in
    generation_of-cons index g gens index ∙ rw (self, e) refl

with_generation-Reads :
    (u : Upload) (index rounds : ℕ) (gens : List (ℕ × ℕ))
    → Reads u (index + 1) rounds gens
    → Reads u index (suc rounds) (with_generation index (get_or u.generation index 0) gens)
with_generation-Reads u index rounds gens (before, within) =
    elim (Bool-cases (get_or u.generation index 0 == 0)) [
      | inl e ↦ rw e (
        λ i lt. before i (omega arith),
        λ i low high. elim (Bool-cases (index == i)) [
          | inl own ↦
              let same : i ≡ index = ground (arith, own) in
              let zero_there : 0 ≡ get_or u.generation index 0 = ground (arith, e) in
              subst (λ j. or_zero (generation_of gens j) ≡ get_or u.generation j 0) (sym same)
                (ap or_zero (before index (omega arith)) ∙ zero_there)
          | inr other ↦ within i (ground (arith, other, low)) (omega arith)
        ],
      )
      | inr e ↦ rw e (
        λ i lt.
            generation_of-other index (get_or u.generation index 0) gens i (ground (arith, lt))
            ∙ before i (omega arith),
        λ i low high. elim (Bool-cases (index == i)) [
          | inl own ↦
              let same : i ≡ index = ground (arith, own) in
              subst
                (λ j.
                  or_zero (generation_of ((index, get_or u.generation index 0) ∷ gens) j)
                  ≡ get_or u.generation j 0)
                (sym same)
                (ap or_zero (
                  generation_of-own index (get_or u.generation index 0) gens
                    (before index (omega arith))))
          | inr other ↦
              ap or_zero (generation_of-other index (get_or u.generation index 0) gens i other)
              ∙ within i (ground (arith, other, low)) (omega arith)
        ],
      )
    ]

pub announce_from-Reads :
    (u : Upload) (index rounds : ℕ) {chars : List ℕ} {gens : List (ℕ × ℕ)}
    → announce_from u index rounds ≡ ok (chars, gens)
    → Reads u index rounds gens
unfolding announce_from
announce_from-Reads u index zero {gens = gens} h =
    let same : [] ≡ gens = cc in
    subst (Reads u index 0) same
      (unfold generation_of in (λ i lt. refl), λ i low high. absurd (omega arith))
announce_from-Reads u index (suc rounds) {gens = gens} h =
    let (c, g, e, same) =
      placed_gens index (get_or u.generation index 0) (get_or u.placed index none)
        (announce_from u (index + 1) rounds) h in
    subst (Reads u index (suc rounds)) same
      (with_generation-Reads u index rounds g (announce_from-Reads u (index + 1) rounds e))
