-- ===== src/NostrFile/Upload/WellFormed.antt =====
-- Sound states of upload.rs, under the operations that place and demote.
use ptransfer_cli.Common.{
  ℕ, zero, suc, ◌+◌, ◌-◌, ◌≤◌, ◌<◌, ◌≡◌, refl, sym, subst, ◌∙◌, if◌then◌else◌, List, [], ◌∷◌,
  Option, none, some, inl, inr, Bool, true, false, Bool-cases, ◌||◌, leb, ltb, ltb→lt, length,
  length-set, set, get_or, All, arith,
}
use ptransfer_cli.NostrFile.Upload.{
  unless_finished, Upload, contains, demote, take_next, give_up, advance, is_placed, take_from,
  record_placed, live_relay_demote_giveups,
}
use ptransfer_cli.NostrFile.Upload.Reader.{charge}

abbrev pub IsPlaced : Option ℕ → Type 0
IsPlaced none = ⊥
IsPlaced (some position) = Unit

-- A placement names a position of a ring of this size.
abbrev pub IsInRing : ℕ → Option ℕ → Type 0
IsInRing size none = Unit
IsInRing size (some position) = position < size

-- Every chunk has its entries; the announced ones are placed, and on relays of the ring; a ring
-- has a relay that is not demoted; what waits for a worker is a chunk.
abbrev pub IsWellFormed : Upload → Type 0
IsWellFormed u =
    (length u.placed ≡ u.total)
    × (length u.generation ≡ u.total)
    × (u.upto ≤ u.total)
    × ((i : ℕ) → i < u.upto → IsPlaced (get_or u.placed i none))
    × All (IsInRing (length u.ring)) u.placed
    × (length u.demoted ≤ length u.ring - 1)
    × All (λ i. i < u.total) u.retry_queue
    × (u.next_chunk ≤ u.total)

pub unless_finished-IsWellFormed :
    (b : Bool) (u v : Upload)
    → IsWellFormed u
    → IsWellFormed v
    → IsWellFormed (unless_finished b u v)
unless_finished-IsWellFormed true u v w x = w
unless_finished-IsWellFormed false u v w x = x

pub demote-IsWellFormed :
    (u : Upload) (position : ℕ) → IsWellFormed u → IsWellFormed (demote u position)
unfolding demote
demote-IsWellFormed u position w =
    elim (Bool-cases (leb (length u.ring) (length u.demoted + 1) || contains position u.demoted)) [
      | inl e ↦ rw e w
      | inr e ↦
          let (a, b, c, p, r, few, q, n) = w in
          let room : length u.demoted + 1 < length u.ring = ground (arith, e) in
          rw e (a, b, c, p, r, omega (arith, room), q, n)
    ]

pub give_up-IsWellFormed :
    (u : Upload) (position : ℕ) → IsWellFormed u → IsWellFormed (give_up u position)
unfolding give_up
give_up-IsWellFormed u position w =
    elim (Bool-cases (leb live_relay_demote_giveups (get_or u.give_ups position 0 + 1))) [
      | inl e ↦ rw e (demote-IsWellFormed _ position w)
      | inr e ↦ rw e w
    ]

pub charge-IsWellFormed :
    (u : Upload) (position : ℕ) → IsWellFormed u → IsWellFormed (charge u position)
unfolding charge
charge-IsWellFormed u position w = elim (Bool-cases (leb 2 (get_or u.misses position 0 + 1))) [
  | inl e ↦ rw e (demote-IsWellFormed _ position w)
  | inr e ↦ rw e w
]

-- What a worker takes is a chunk.
abbrev IsTaken : ℕ → Option (ℕ × Bool) → Type 0
IsTaken total none = Unit
IsTaken total (some (index, is_retry)) = index < total

take_from-IsWellFormed :
    (u : Upload) (queue : List ℕ)
    → IsWellFormed u
    → All (λ i. i < u.total) queue
    → IsWellFormed (take_from u queue).0 × IsTaken u.total (take_from u queue).1
unfolding take_from
take_from-IsWellFormed u (index ∷ rest) (a, b, c, p, r, few, q, n) h =
    ((a, b, c, p, r, few, h.1, n), h.0)
take_from-IsWellFormed u [] (a, b, c, p, r, few, q, n) h =
    elim (Bool-cases (ltb u.next_chunk u.total)) [
      | inl e ↦
          let more = ltb→lt u.next_chunk u.total e in
          rw e ((a, b, c, p, r, few, q, omega arith), more)
      | inr e ↦ rw e ((a, b, c, p, r, few, q, n), tt)
    ]

pub take_next-IsWellFormed :
    (u : Upload) → IsWellFormed u → IsWellFormed (take_next u).0 × IsTaken u.total (take_next u).1
unfolding take_next
take_next-IsWellFormed u w = guarded u.finished
  where
    guarded :
        (b : Bool)
        → IsWellFormed (if b then (u, none) else take_from u u.retry_queue).0
          × IsTaken u.total (if b then (u, none) else take_from u u.retry_queue).1
    guarded true = (w, tt)
    guarded false = let (a, b, c, p, r, few, q, n) = w in take_from-IsWellFormed u u.retry_queue w q

All-set {ℓ} :
    {A : Type ℓ} (P : A → Type 0) (xs : List A) (i : ℕ) (v : A)
    → P v
    → All P xs
    → All P (set xs i v)
All-set P [] i v pv h = tt
All-set P (x ∷ xs) zero v pv h = (pv, h.1)
All-set P (x ∷ xs) (suc i) v pv h = (h.0, All-set P xs i v pv h.1)

IsPlaced-set :
    (placed : List (Option ℕ)) (index i position : ℕ)
    → IsPlaced (get_or placed i none)
    → IsPlaced (get_or (set placed index (some position)) i none)
IsPlaced-set [] index i position h = h
IsPlaced-set (o ∷ os) zero zero position h = tt
IsPlaced-set (o ∷ os) zero (suc i) position h = h
IsPlaced-set (o ∷ os) (suc index) zero position h = h
IsPlaced-set (o ∷ os) (suc index) (suc i) position h = IsPlaced-set os index i position h

advance-le :
    (placed : List (Option ℕ)) (rounds upto : ℕ) → advance placed rounds upto ≤ upto + rounds
unfolding advance
advance-le placed zero upto = omega arith
advance-le placed (suc rounds) upto = ground (arith, advance-le placed rounds (upto + 1))

IsPlaced-next :
    (placed : List (Option ℕ)) (upto : ℕ)
    → ((i : ℕ) → i < upto → IsPlaced (get_or placed i none))
    → is_placed (get_or placed upto none) ≡ true
    → (i : ℕ) → i < upto + 1
    → IsPlaced (get_or placed i none)
IsPlaced-next placed upto h e i lt = elim (Bool-cases (ltb i upto)) [
  | inl k ↦ h i (ltb→lt i upto k)
  | inr k ↦
      let same : i ≡ upto = ground (arith, k) in
      subst (λ j. IsPlaced (get_or placed j none)) (sym same)
        (placed_of (get_or placed upto none) e)
]
  where
    placed_of : (o : Option ℕ) → is_placed o ≡ true → IsPlaced o
    placed_of none e = cc
    placed_of (some position) e = tt

IsPlaced-advance :
    (placed : List (Option ℕ)) (rounds upto : ℕ)
    → ((i : ℕ) → i < upto → IsPlaced (get_or placed i none))
    → (i : ℕ) → i < advance placed rounds upto
    → IsPlaced (get_or placed i none)
unfolding advance
IsPlaced-advance placed zero upto h = h
IsPlaced-advance placed (suc rounds) upto h =
    elim (Bool-cases (is_placed (get_or placed upto none))) [
      | inl e ↦ rw e (IsPlaced-advance placed rounds (upto + 1) (IsPlaced-next placed upto h e))
      | inr e ↦ rw e h
    ]

pub record_placed-IsWellFormed :
    (u : Upload) (index position : ℕ) (is_retry : Bool)
    → position < length u.ring
    → IsWellFormed u
    → IsWellFormed (record_placed u index position is_retry)
unfolding record_placed
record_placed-IsWellFormed u index position is_retry inside (a, b, c, p, r, few, q, n) =
    let placed = set u.placed index (some position) in
    unless_finished-IsWellFormed u.finished u _ (a, b, c, p, r, few, q, n)
      (
        length-set u.placed index (some position) ∙ a,
        generation_len is_retry,
        omega (arith, advance-le placed (u.total - u.upto) u.upto),
        IsPlaced-advance placed (u.total - u.upto) u.upto
            (λ i lt. IsPlaced-set u.placed index i position (p i lt)),
        All-set (IsInRing (length u.ring)) u.placed index (some position) inside r,
        few,
        q,
        n,
      )
  where
    generation_len :
        (retry : Bool)
        → length (
            if retry
            then set u.generation index (get_or u.generation index 0 + 1)
            else u.generation)
          ≡ u.total
    generation_len true = length-set u.generation index _ ∙ b
    generation_len false = b

pub All-weaken {ℓ} :
    {A : Type ℓ} (P Q : A → Type 0) → ((a : A) → P a → Q a) → (xs : List A) → All P xs → All Q xs
All-weaken P Q f [] h = tt
All-weaken P Q f (x ∷ xs) h = (f x h.0, All-weaken P Q f xs h.1)

pub in_ring_at :
    (size : ℕ) (placed : List (Option ℕ)) (i : ℕ)
    → All (IsInRing size) placed
    → IsPlaced (get_or placed i none)
    → (position : ℕ) × (get_or placed i none ≡ some position) × (position < size)
in_ring_at size [] i h p = absurd p
in_ring_at size (none ∷ os) zero h p = absurd p
in_ring_at size (some position ∷ os) zero h p = (position, refl, h.0)
in_ring_at size (o ∷ os) (suc i) h p = in_ring_at size os i h.1 p
