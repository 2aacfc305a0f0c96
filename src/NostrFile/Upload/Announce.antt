-- ===== src/NostrFile/Upload/Announce.antt =====
-- The sender's announcement against the receiver's checks and the receiver's reading of it.
use ptransfer_cli.Common.{
  ℕ, zero, suc, ◌+◌, ◌≤◌, ◌<◌, ◌≡◌, refl, subst, ap, ap₂, map, ◌∙◌, List, [], ◌∷◌, Option, none,
  some, inl, inr, false, Bool-cases, ◌&&◌, ltb, ltb→lt, ◌==◌, length, is_empty, take, get_or, ok,
  arith,
}
use ptransfer_cli.NostrFile.Control
use ptransfer_cli.NostrFile.Control.{
  SenderMessage, avail, has_relay, check_relays, check_map, check_gens, encode_position,
  decode_position, upload_relay_count, control_relay_max,
}
use ptransfer_cli.NostrFile.Control.Canonical.{IsCanonical, check_relays-IsCanonical}
use ptransfer_cli.NostrFile.Control.Positions.{decode_position-encode_position}
use ptransfer_cli.NostrFile.Download.{read_map}
use ptransfer_cli.NostrFile.Upload.{Upload, announce_from, announcement}
use ptransfer_cli.NostrFile.Upload.WellFormed.{IsWellFormed, in_ring_at}
use ptransfer_cli.NostrFile.Upload.Invariant.{Reachable, Reachable-IsWellFormed}

-- The placements of `rounds` chunks from `index` on.
window : List (Option ℕ) → ℕ → ℕ → List (Option ℕ)
window placed index zero = []
window placed index (suc rounds) = get_or placed index none ∷ window placed (index + 1) rounds

window_later :
    (o : Option ℕ) (os : List (Option ℕ)) (j index rounds : ℕ)
    → j ≡ suc index
    → window (o ∷ os) j rounds ≡ window os index rounds
unfolding window
window_later o os j index zero e = refl
window_later o os j index (suc rounds) e =
    ap₂ (λ a t. a ∷ t) (ap (λ k. get_or (o ∷ os) k none) e)
      (window_later o os (j + 1) (index + 1) rounds (omega arith))

window-take :
    (rounds : ℕ) (placed : List (Option ℕ))
    → rounds ≤ length placed
    → window placed 0 rounds ≡ take rounds placed
unfolding window
window-take zero placed h = refl
window-take (suc rounds) [] h = absurd (omega arith)
window-take (suc rounds) (o ∷ os) h =
    ap (λ t. o ∷ t) (window_later o os 1 0 rounds refl ∙ window-take rounds os (omega arith))

-- The loop's output for `rounds` chunks from `index` on: as many characters, which pass the test and
-- read as the placements, and re-sends of those chunks only.
abbrev Announces : Upload → ℕ → ℕ → Type 0
Announces u index rounds =
    (chars : List ℕ) × (gens : List (ℕ × ℕ)) × (announce_from u index rounds ≡ ok (chars, gens))
    × (length chars ≡ rounds)
    × (check_map (length u.ring) chars ≡ ok tt)
    × (length gens ≤ rounds)
    × (check_gens (index + rounds) gens ≡ ok tt)
    × (map some (read_map chars) ≡ window u.placed index rounds)

announce_step :
    (u : Upload) (index rounds position : ℕ)
    → get_or u.placed index none ≡ some position
    → position < length u.ring
    → length u.ring ≤ 16
    → Announces u (index + 1) rounds
    → Announces u index (suc rounds)
announce_step u index rounds position placed inside small
      (chars, gens, e, len, ok_map, few, ok_gens, same) =
    let (character, written, read) = decode_position-encode_position position (omega arith) in
    let map' : check_map (length u.ring) (character ∷ chars) ≡ ok tt =
      unfold check_map in rw read (ground arith) in
    let gens' : check_gens (index + suc rounds) gens ≡ ok tt =
      subst (λ k. check_gens k gens ≡ ok tt) (omega arith) ok_gens in
    let same' : map some (read_map (character ∷ chars)) ≡ window u.placed index (suc rounds) =
      unfold read_map window in rw (read, placed) (ap (λ t. some position ∷ t) same) in
    elim (Bool-cases (get_or u.generation index 0 == 0)) [
      | inl g ↦ (
        character ∷ chars,
        gens,
        unfold announce_from in rw (placed, written, e, g) refl,
        omega (arith, len),
        map',
        omega (arith, few),
        gens',
        same',
      )
      | inr g ↦ (
        character ∷ chars,
        (index, get_or u.generation index 0) ∷ gens,
        unfold announce_from in rw (placed, written, e, g) refl,
        omega (arith, len),
        map',
        omega (arith, few),
        unfold check_gens in ground (arith, g, gens'),
        same',
      )
    ]

announce_all :
    (u : Upload) (rounds index : ℕ)
    → IsWellFormed u
    → length u.ring ≤ 16
    → index + rounds ≤ u.upto
    → Announces u index rounds
announce_all u zero index w small h = (
  [],
  [],
  unfold announce_from in refl,
  omega arith,
  unfold check_map in refl,
  omega arith,
  unfold check_gens in refl,
  unfold read_map window in refl,
)
announce_all u (suc rounds) index w small h =
    let (a, b, c, p, inside, few, q, n) = w in
    let (position, placed, lt) =
      in_ring_at (length u.ring) u.placed index inside (p index (omega arith)) in
    announce_step u index rounds position placed lt small
      (announce_all u rounds (index + 1) w small (omega arith))

is_empty-length : (xs : List (List ℕ)) → 1 ≤ length xs → is_empty xs ≡ false
is_empty-length [] h = absurd (omega arith)
is_empty-length (x ∷ xs) h = refl

-- Where chunks are announced there is a ring.
ring_there : (u : Upload) → IsWellFormed u → (is_empty u.ring && ltb 0 u.upto) ≡ false
ring_there u (a, b, c, p, inside, few, q, n) = elim (Bool-cases (ltb 0 u.upto)) [
  | inl e ↦
      let (position, placed, lt) =
        in_ring_at (length u.ring) u.placed 0 inside (p 0 (ltb→lt 0 u.upto e)) in
      rw (is_empty-length u.ring (omega (arith, lt))) refl
  | inr e ↦ rw e (ground arith)
]

pub validate-announced :
    (normalize : List ℕ → Option (List ℕ)) {total : ℕ} {u : Upload} (ctl : List (List ℕ))
    → Reachable total u
    → length u.ring ≤ 16
    → check_relays normalize [] u.ring ≡ ok tt
    → 1 ≤ length ctl
    → length ctl ≤ 10
    → check_relays normalize [] ctl ≡ ok tt
    → (chars : List ℕ) × (gens : List (ℕ × ℕ)) × (announcement u ctl
        ≡ ok (avail 0 u.upto u.ring chars gens ctl))
      × (Control.validate normalize (avail 0 u.upto u.ring chars gens ctl) (some u.total) ≡ ok tt)
      × (map some (read_map chars) ≡ take u.upto u.placed)
validate-announced normalize {u = u} ctl r small ring_ok c_low c_high ctl_ok =
    let w = Reachable-IsWellFormed r in
    let (chars, gens, e, len, map_ok, few, gens_ok, same) =
      announce_all u u.upto 0 w small (omega arith) in
    let (a, b, c, p, inside, few_demoted, q, n) = w in
    let gens_fit : check_gens u.upto gens ≡ ok tt =
      subst (λ k. check_gens k gens ≡ ok tt) (omega arith) gens_ok in
    let passes : Control.validate normalize (avail 0 u.upto u.ring chars gens ctl) (some u.total)
        ≡ ok tt =
      unfold Control.validate in
      ground (
        arith,
        small,
        ring_ok,
        is_empty-length ctl c_low,
        c_high,
        ctl_ok,
        c,
        ring_there u w,
        len,
        map_ok,
        few,
        gens_fit,
      ) in
    (
      chars,
      gens,
      unfold announcement in rw e refl,
      passes,
      same ∙ window-take u.upto u.placed (omega (arith, a, c)),
    )

-- At every moment of an upload over a ring of at most 16 relays, in normal form and none twice, and
-- with a control set of 1 to 10 such relays, the announcement can be made; it passes the receiver's
-- checks, and its map reads as the placements of the chunks announced.
pub validate-announcement :
    (normalize : List ℕ → Option (List ℕ)) {total : ℕ} {u : Upload} (ctl : List (List ℕ))
    → Reachable total u
    → length u.ring ≤ 16
    → IsCanonical normalize u.ring
    → 1 ≤ length ctl
    → length ctl ≤ 10
    → IsCanonical normalize ctl
    → (chars : List ℕ) × (gens : List (ℕ × ℕ)) × (announcement u ctl
        ≡ ok (avail 0 u.upto u.ring chars gens ctl))
      × (Control.validate normalize (avail 0 u.upto u.ring chars gens ctl) (some u.total) ≡ ok tt)
      × (map some (read_map chars) ≡ take u.upto u.placed)
validate-announcement normalize {u = u} ctl r small ring_canonical c_low c_high ctl_canonical =
    validate-announced normalize ctl r small
      (check_relays-IsCanonical normalize u.ring ring_canonical) c_low c_high
      (check_relays-IsCanonical normalize ctl ctl_canonical)
