-- ===== src/NostrFile/Download/Progress.antt =====
-- What a fetch cycle of download.rs gains.
use ptransfer_cli.Common.{
  is_some, ℕ, zero, suc, ◌<◌, ◌≡◌, refl, subst, ◌∙◌, List, [], ◌∷◌, Option, none, some, inl, inr,
  Bool, true, false, Bool-cases, not, ◌&&◌, ltb, length, length-set, set, get_or, get_elem?, All,
  if◌then◌else◌, and_then, some_injective, arith,
}
use mathlib.Core.List.{Memᴰ}
use ptransfer_cli.Crypto.Aead.{Aead}
use ptransfer_cli.Wire.Flate.{Decoder}
use ptransfer_cli.NostrFile.Codec.{open_piece}
use ptransfer_cli.NostrFile.Manifest.{NostrFileManifest}
use ptransfer_cli.NostrFile.Download.{Download, placement, generation_of, or_zero}
use ptransfer_cli.NostrFile.Download.Cycle.{
  tried_from, is_asked, hold, hold_opened, take_answer, take_answers, mark_tried, fetch,
}
use ptransfer_cli.NostrFile.Download.Planned.{is_held, is_cooling, is_asked-due}
use ptransfer_cli.NostrFile.Download.Reached.{
  Reachable, Reachable-positions, Reachable-IsConsistent,
}
use ptransfer_cli.NostrFile.Download.Consistent.{Describes}

get_or-held :
    (cs : List (Option (List ℕ))) (i j : ℕ) (p : List ℕ)
    → is_some (get_or cs j none) ≡ true
    → is_some (get_or (set cs i (some p)) j none) ≡ true
get_or-held [] i j p h = h
get_or-held (c ∷ cs) zero zero p h = refl
get_or-held (c ∷ cs) zero (suc j) p h = h
get_or-held (c ∷ cs) (suc i) zero p h = h
get_or-held (c ∷ cs) (suc i) (suc j) p h = get_or-held cs i j p h

get_or-own :
    (cs : List (Option (List ℕ))) (i : ℕ) (p : List ℕ)
    → i < length cs
    → is_some (get_or (set cs i (some p)) i none) ≡ true
get_or-own [] i p h = absurd (omega arith)
get_or-own (c ∷ cs) zero p h = refl
get_or-own (c ∷ cs) (suc i) p h = get_or-own cs i p (omega arith)

-- What the operations of a cycle leave: pieces stay held, and the sizes stay.
abbrev Keeps : Download → Download → Type 0
Keeps s t =
    (length t.chunks ≡ length s.chunks)
    × (length t.ring ≡ length s.ring)
    × ((i : ℕ) → is_held s i ≡ true → is_held t i ≡ true)

Keeps-refl : (s : Download) → Keeps s s
Keeps-refl s = (refl, refl, λ i h. h)

Keeps-trans : (s t u : Download) → Keeps s t → Keeps t u → Keeps s u
Keeps-trans s t u (a, b, c) (a', b', c') = (a' ∙ a, b' ∙ b, λ i h. c' i (c i h))

hold-Keeps : (s : Download) (i : ℕ) (piece : List ℕ) → Keeps s (hold s i piece)
unfolding hold
hold-Keeps s i piece =
    elim (Bool-cases (ltb i (length s.chunks) && not (is_some (get_or s.chunks i none)))) [
      | inl e ↦
          rw e (length-set s.chunks i (some piece), refl, λ j h. get_or-held s.chunks i j piece h)
      | inr e ↦ rw e (Keeps-refl s)
    ]

hold-held :
    (s : Download) (i : ℕ) (piece : List ℕ)
    → i < length s.chunks
    → is_held (hold s i piece) i ≡ true
unfolding hold
hold-held s i piece h = elim (Bool-cases (is_some (get_or s.chunks i none))) [
  | inl e ↦ let (len, ring, kept) = hold-Keeps s i piece in kept i e
  | inr e ↦
      let test : (ltb i (length s.chunks) && not (is_some (get_or s.chunks i none))) ≡ true =
        ground (arith, e, h) in
      rw test (get_or-own s.chunks i piece h)
]

module _ (aead : Aead) (key transfer_id : List ℕ) (m : NostrFileManifest)
    (tried : List (ℕ × ℕ × ℕ)) where
  hold_opened-Keeps :
      (s : Download) (i : ℕ) (opened : Option (List ℕ))
      → Keeps s (hold_opened aead key transfer_id s i opened)
  hold_opened-Keeps s i none = Keeps-refl s
  hold_opened-Keeps s i (some piece) = hold-Keeps s i piece

  if-Keeps : (b : Bool) (s t : Download) → Keeps s t → Keeps s (if b then t else s)
  if-Keeps true s t k = k
  if-Keeps false s t k = Keeps-refl s

  abbrev of_event : ℕ → Download → ℕ → List ℕ → Download
  of_event position s i content =
      let opened =
        hold_opened aead key transfer_id s i
          (open_piece aead key transfer_id m.total_chunks m.chunk_size i content) in
      if ltb i m.total_chunks && is_asked tried position i then opened else s

  of_event-Keeps :
      (position : ℕ) (s : Download) (i : ℕ) (content : List ℕ)
      → Keeps s (of_event position s i content)
  of_event-Keeps position s i content =
      if-Keeps (ltb i m.total_chunks && is_asked tried position i) s _ (hold_opened-Keeps s i _)

  take_answer-Keeps :
      (position : ℕ) (s : Download) (events : List (ℕ × List ℕ))
      → Keeps s (take_answer aead key transfer_id m tried position s events)
  unfolding take_answer
  take_answer-Keeps position s [] = Keeps-refl s
  take_answer-Keeps position s ((i, content) ∷ events) =
      Keeps-trans s (of_event position s i content)
        (take_answer aead key transfer_id m tried position (of_event position s i content) events)
        (of_event-Keeps position s i content)
        (take_answer-Keeps position (of_event position s i content) events)

  abbrev of_answer : Download → ℕ → List (ℕ × List ℕ) → Download
  of_answer s position events =
      let fetched = take_answer aead key transfer_id m tried position s events in
      if ltb position (length s.ring) then fetched else s

  of_answer-Keeps :
      (s : Download) (position : ℕ) (events : List (ℕ × List ℕ))
      → Keeps s (of_answer s position events)
  of_answer-Keeps s position events =
      if-Keeps (ltb position (length s.ring)) s _ (take_answer-Keeps position s events)

  take_answers-Keeps :
      (s : Download) (answers : List (ℕ × List (ℕ × List ℕ)))
      → Keeps s (take_answers aead key transfer_id m tried s answers)
  unfolding take_answers
  take_answers-Keeps s [] = Keeps-refl s
  take_answers-Keeps s ((position, events) ∷ answers) =
      Keeps-trans s (of_answer s position events)
        (take_answers aead key transfer_id m tried (of_answer s position events) answers)
        (of_answer-Keeps s position events)
        (take_answers-Keeps (of_answer s position events) answers)

  module _ (i position : ℕ) (content piece : List ℕ) (asked : is_asked tried position i ≡ true)
      (low : i < m.total_chunks)
      (opens : open_piece aead key transfer_id m.total_chunks m.chunk_size i content
        ≡ some piece) where
    of_event-held :
        (s : Download) → i < length s.chunks → is_held (of_event position s i content) i ≡ true
    of_event-held s fits =
        let test : (ltb i m.total_chunks && is_asked tried position i) ≡ true =
          ground (arith, asked, low) in
        rw (test, opens) (hold-held s i piece fits)

    take_answer-held :
        (s : Download) (events : List (ℕ × List ℕ))
        → i < length s.chunks
        → Memᴰ (i, content) events
        → is_held (take_answer aead key transfer_id m tried position s events) i ≡ true
    unfolding take_answer
    take_answer-held s [] fits there = elim there [ ]
    take_answer-held s ((j, c) ∷ events) fits (Memᴰ.head e) =
        let now : is_held (of_event position s j c) i ≡ true =
          subst (λ (x : ℕ × List ℕ). is_held (of_event position s x.0 x.1) i ≡ true) e
            (of_event-held s fits) in
        let (len, ring, kept) = take_answer-Keeps position (of_event position s j c) events in
        kept i now
    take_answer-held s ((j, c) ∷ events) fits (Memᴰ.tail later) =
        let (len, ring, kept) = of_event-Keeps position s j c in
        take_answer-held (of_event position s j c) events (omega (arith, len)) later

    take_answers-held :
        (s : Download) (answers : List (ℕ × List (ℕ × List ℕ))) (events : List (ℕ × List ℕ))
        → i < length s.chunks
        → position < length s.ring
        → Memᴰ (i, content) events
        → Memᴰ (position, events) answers
        → is_held (take_answers aead key transfer_id m tried s answers) i ≡ true
    unfolding take_answers
    take_answers-held s [] events fits known there found = elim found [ ]
    take_answers-held s ((p, es) ∷ answers) events fits known there (Memᴰ.head e) =
        let test : ltb position (length s.ring) ≡ true = ground (arith, known) in
        let first : is_held (of_answer s position events) i ≡ true =
          rw test (take_answer-held s events fits there) in
        let now : is_held (of_answer s p es) i ≡ true =
          subst (λ (x : ℕ × List (ℕ × List ℕ)). is_held (of_answer s x.0 x.1) i ≡ true) e first in
        let (len, ring, kept) = take_answers-Keeps (of_answer s p es) answers in kept i now
    take_answers-held s ((p, es) ∷ answers) events fits known there (Memᴰ.tail later) =
        let (len, ring, kept) = of_answer-Keeps s p es in
        take_answers-held (of_answer s p es) answers events (omega (arith, len))
          (omega (arith, ring)) there later

if_either :
    (b : Bool) (s t : Download) (i : ℕ)
    → is_held t i ≡ is_held s i
    → is_held (if b then s else t) i ≡ is_held s i
if_either true s t i e = refl
if_either false s t i e = e

mark_tried-held :
    (s : Download) (now : ℕ) (tried : List (ℕ × ℕ × ℕ)) (i : ℕ)
    → is_held (mark_tried s now tried) i ≡ is_held s i
unfolding mark_tried
mark_tried-held s now [] i = refl
mark_tried-held s now ((j, position, generation) ∷ tried) i =
    let marked : Download = record s {
      last_tried = set s.last_tried j (some (position, generation));
      last_tried_at = set s.last_tried_at j (some now);
    } in
    let test = is_some (get_or s.chunks j none) in
    mark_tried-held (if test then s else marked) now tried i ∙ if_either test s marked i refl

placement-position :
    (s : Download) (i : ℕ) {position generation : ℕ}
    → placement s i ≡ some (position, generation)
    → get_elem? s.positions i ≡ some position
unfolding placement
placement-position s i h = of_option (get_elem? s.positions i) (or_zero (generation_of s.gens i)) h
  where
    of_option :
        (o : Option ℕ) (generation : ℕ) {position generation' : ℕ}
        → and_then {A = ℕ} {B = ℕ × ℕ} o (λ p. some (p, generation)) ≡ some (position, generation')
        → o ≡ some position
    of_option none generation e = cc
    of_option (some p) generation e = cc

All-get_elem? :
    (P : ℕ → Type 0) (xs : List ℕ) (i : ℕ) {x : ℕ} → All P xs → get_elem? xs i ≡ some x → P x
All-get_elem? P [] i a e = cc
All-get_elem? P (y ∷ ys) zero a e = subst P (some_injective e) a.0
All-get_elem? P (y ∷ ys) (suc i) a e = All-get_elem? P ys i a.1 e

module _ (aead : Aead) (key transfer_id : List ℕ) (d : Decoder) (file_hash : List ℕ → List ℕ)
    (to_hex : ℕ → List ℕ) (expected_name : List ℕ) (normalize : List ℕ → Option (List ℕ)) where
  -- At every moment of a download, a fetch cycle in which the relay at the placement of an announced
  -- chunk serves content that opens, and in which that placement is not waiting to be tried again,
  -- ends with the chunk held: whatever else the relays serve, and in whatever order they answer.
  pub fetch-held :
      {s : Download} {m : NostrFileManifest} {piece : List ℕ} (now finished : ℕ)
      (answers : List (ℕ × List (ℕ × List ℕ))) (i position generation : ℕ)
      (events : List (ℕ × List ℕ)) (content : List ℕ)
      → Reachable aead key transfer_id d file_hash to_hex expected_name normalize s
      → s.described ≡ some m
      → i < s.upto
      → placement s i ≡ some (position, generation)
      → is_cooling s now i position generation ≡ false
      → Memᴰ (position, events) answers
      → Memᴰ (i, content) events
      → open_piece aead key transfer_id m.total_chunks m.chunk_size i content ≡ some piece
      → is_held (fetch aead key transfer_id s m now finished answers) i ≡ true
  unfolding fetch
  fetch-held {s = s} {m = m} {piece = piece} now finished answers i position generation events
        content r e announced at cooled served there opens =
      let (fits, count, inside, done) =
        Reachable-positions aead key transfer_id d file_hash to_hex expected_name normalize r in
      let (described, rest, rest2, rest3, rest4) =
        Reachable-IsConsistent aead key transfer_id d file_hash to_hex expected_name normalize r in
      let (valid, len, opened) =
        subst (λ o. Describes aead key transfer_id o s.chunks) e described in
      let known : position < length s.ring =
        All-get_elem? (λ p. p < length s.ring) s.positions i inside (placement-position s i at) in
      let tried = tried_from s now 0 s.upto in
      let begun : Download = record s { last_cycle_at = some now } in
      let taken = take_answers aead key transfer_id m tried begun answers in
      let held_then : is_held taken i ≡ true = elim (Bool-cases (is_held s i)) [
        | inl already ↦
            let (len', ring', kept) =
              take_answers-Keeps aead key transfer_id m tried begun answers in
            kept i already
        | inr missing ↦
            take_answers-held aead key transfer_id m tried i position content piece
              (is_asked-due s now 0 s.upto i (omega arith) (omega (arith, announced)) missing at
                cooled)
              (omega (arith, len)) opens begun answers events (omega arith) known there served
      ] in
      mark_tried-held taken finished tried i ∙ held_then
