-- ===== src/NostrFile/Upload/Invariant.antt =====
-- The tasks of upload.rs as steps on their shared state, in any order.
use ptransfer_cli.Common.{
  ℕ, zero, suc, ◌-◌, ◌≤◌, ◌<◌, ◌≡◌, subst, List, [], ◌∷◌, Option, none, some, inl, inr, Bool, true,
  false, Bool-cases, leb, length, length-replicate, replicate, get_or, take, All, All-append, arith,
}
use ptransfer_cli.NostrFile.Control.Reply.{ReceiverMessage, hello, acknowledge, done, cancelled}
use ptransfer_cli.NostrFile.Upload.{
  Upload, new, demote, adopt_ring, take_next, try_position, give_up, record_placed,
}
use ptransfer_cli.NostrFile.Upload.Reader.{
  charge, queue_retry, is_stale, is_placed_at, is_ignored, read_missing, read_message,
  read_receiver, saw_peer,
}
use ptransfer_cli.NostrFile.Upload.Promote.{
  owe, pop_spare, pay, announce_promoted, owe-IsWellFormed, pop_spare-IsWellFormed,
  pay-IsWellFormed, announce_promoted-IsWellFormed,
}
use ptransfer_cli.NostrFile.Upload.WellFormed.{
  unless_finished-IsWellFormed, IsPlaced, IsInRing, IsWellFormed, give_up-IsWellFormed,
  charge-IsWellFormed, take_next-IsWellFormed, record_placed-IsWellFormed, All-weaken,
}

placed-lt :
    (placed : List (Option ℕ)) (index position : ℕ)
    → is_placed_at (get_or placed index none) position ≡ true
    → index < length placed
placed-lt [] index position h = cc
placed-lt (o ∷ os) zero position h = omega arith
placed-lt (o ∷ os) (suc index) position h = omega (arith, placed-lt os index position h)

queue_retry-IsWellFormed :
    (u : Upload) (index : ℕ) → index < u.total → IsWellFormed u → IsWellFormed (queue_retry u index)
queue_retry-IsWellFormed u index lt (a, b, c, p, r, few, q, n) =
    (a, b, c, p, r, few, All-append (λ i. i < u.total) u.retry_queue (index ∷ []) q (lt, tt), n)

charge-placed : (u : Upload) (position : ℕ) → (charge u position).total ≡ u.total
unfolding charge demote
charge-placed u position = ground arith

read_missing-IsWellFormed :
    (u : Upload) (missing : List (ℕ × ℕ × ℕ))
    → IsWellFormed u
    → IsWellFormed (read_missing u missing).0
unfolding read_missing
read_missing-IsWellFormed u [] w = w
read_missing-IsWellFormed u ((index, position, generation) ∷ missing) w =
    elim (Bool-cases (is_stale u (index, position, generation))) [
      | inl e ↦ rw e (read_missing-IsWellFormed u missing w)
      | inr e ↦
          let a = w.0 in
          let here : is_placed_at (get_or u.placed index none) position ≡ true =
            ground (arith, e) in
          let charged = charge-IsWellFormed u position w in
          let known : index < (charge u position).total =
            omega (arith, placed-lt u.placed index position here, charge-placed u position) in
          elim (Bool-cases (
            leb (charge u position).max_retransmits
              (get_or (charge u position).generation index 0))) [
                | inl k ↦ rw (e, k) charged
                | inr k ↦
                    rw (e, k)
                      (read_missing-IsWellFormed (queue_retry (charge u position) index) missing
                        (queue_retry-IsWellFormed (charge u position) index known charged))
              ]
    ]

read_message-IsWellFormed :
    (u : Upload) (msg : ReceiverMessage) → IsWellFormed u → IsWellFormed (read_message u msg).0
unfolding read_message
read_message-IsWellFormed u (hello n) w = w
read_message-IsWellFormed u (acknowledge n heard have missing) w =
    read_missing-IsWellFormed _ missing w
read_message-IsWellFormed u (done n) w = w
read_message-IsWellFormed u (cancelled n) w = w

read_receiver-IsWellFormed :
    (u : Upload) (msg : ReceiverMessage) (pubkey now : ℕ)
    → IsWellFormed u
    → IsWellFormed (read_receiver u msg pubkey now).0
unfolding read_receiver
read_receiver-IsWellFormed u msg pubkey now w = elim (Bool-cases (is_ignored u msg pubkey)) [
  | inl e ↦ rw e w
  | inr e ↦ rw e (read_message-IsWellFormed (saw_peer u msg pubkey now) msg w)
]

try_position-IsWellFormed :
    (u : Upload) (index position : ℕ)
    → IsWellFormed u
    → IsWellFormed (try_position u index position)
unfolding try_position
try_position-IsWellFormed u index position w = unless_finished-IsWellFormed u.finished u _ w w

adopt_ring-IsWellFormed :
    (u : Upload) (ring reserve : List (List ℕ))
    → u.ring ≡ []
    → IsWellFormed u
    → IsWellFormed (adopt_ring u ring reserve)
unfolding adopt_ring
adopt_ring-IsWellFormed u ring reserve e (a, b, c, p, r, few, q, n) =
    let unplaced = subst (λ rs. All (IsInRing (length rs)) u.placed) e r in
    let none_yet = subst (λ rs. length u.demoted ≤ length rs - 1) e few in
    unless_finished-IsWellFormed u.finished u _ (a, b, c, p, r, few, q, n)
      (
        a,
        b,
        c,
        p,
        All-weaken (IsInRing 0) (IsInRing (length ring)) wider u.placed unplaced,
        omega (arith, none_yet),
        q,
        n,
      )
  where
    wider : (o : Option ℕ) → IsInRing 0 o → IsInRing (length ring) o
    wider none h = tt
    wider (some position) h = absurd (omega arith)

new-IsWellFormed : (total : ℕ) → IsWellFormed (new total)
unfolding new
new-IsWellFormed total = (
  length-replicate total none,
  length-replicate total 0,
  omega arith,
  λ i h. absurd (omega arith),
  unplaced total,
  omega arith,
  tt,
  omega arith,
)
  where
    unplaced : (n : ℕ) → All (IsInRing 0) (replicate n none)
    unplaced zero = tt
    unplaced (suc n) = (tt, unplaced n)

-- What the tasks do to the state, one hold of the lock at a time. A worker records a position that
-- `candidates` gave it.
pub data Step : Upload → Upload → Type 0 where
  adopts :
      {u : Upload} (ring reserve : List (List ℕ)) → u.ring ≡ [] → Step u (adopt_ring u ring reserve)
  takes : {u : Upload} → Step u (take_next u).0
  tries : {u : Upload} (index position : ℕ) → Step u (try_position u index position)
  gives_up : {u : Upload} (position : ℕ) → Step u (give_up u position)
  records :
      {u : Upload} (index position : ℕ) (is_retry : Bool)
      → position < length u.ring
      → Step u (record_placed u index position is_retry)
  reads :
      {u : Upload} (msg : ReceiverMessage) (pubkey now : ℕ)
      → Step u (read_receiver u msg pubkey now).0
  announces : {u : Upload} → Step u (record u { avail_dirty = false })
  finishes : {u : Upload} → Step u (record u { finished = true })
  owes : {u : Upload} → Step u (owe u)
  pops : {u : Upload} → Step u (pop_spare u).0
  pays : {u : Upload} → Step u (pay u)
  promotes : {u : Upload} → Step u (announce_promoted u)

pub data Reachable (total : ℕ) : Upload → Type 0 where
  starts : Reachable total (new total)
  steps : {u v : Upload} → Reachable total u → Step u v → Reachable total v

Step-IsWellFormed : {u v : Upload} → Step u v → IsWellFormed u → IsWellFormed v
Step-IsWellFormed (adopts ring reserve e) w = adopt_ring-IsWellFormed _ ring reserve e w
Step-IsWellFormed takes w = (take_next-IsWellFormed _ w).0
Step-IsWellFormed (tries index position) w = try_position-IsWellFormed _ index position w
Step-IsWellFormed (gives_up position) w = give_up-IsWellFormed _ position w
Step-IsWellFormed (records index position is_retry h) w =
    record_placed-IsWellFormed _ index position is_retry h w
Step-IsWellFormed (reads msg pubkey now) w = read_receiver-IsWellFormed _ msg pubkey now w
Step-IsWellFormed announces w = w
Step-IsWellFormed finishes w = w
Step-IsWellFormed owes w = owe-IsWellFormed _ w
Step-IsWellFormed pops w = pop_spare-IsWellFormed _ w
Step-IsWellFormed pays w = pay-IsWellFormed _ w
Step-IsWellFormed promotes w = announce_promoted-IsWellFormed _ w

pub Reachable-IsWellFormed : {total : ℕ} {u : Upload} → Reachable total u → IsWellFormed u
Reachable-IsWellFormed starts = new-IsWellFormed _
Reachable-IsWellFormed (steps r s) = Step-IsWellFormed s (Reachable-IsWellFormed r)

take-IsPlaced :
    (n : ℕ) (placed : List (Option ℕ))
    → n ≤ length placed
    → ((i : ℕ) → i < n → IsPlaced (get_or placed i none))
    → All IsPlaced (take n placed)
take-IsPlaced zero placed h p = tt
take-IsPlaced (suc n) [] h p = absurd (omega arith)
take-IsPlaced (suc n) (o ∷ os) h p =
    (p 0 (omega arith), take-IsPlaced n os (omega arith) (λ i lt. p (suc i) (omega arith)))

-- However the tasks interleave, every chunk below `upto` is placed, each placement names a relay of
-- the ring, a ring keeps a relay that is not demoted, and only chunks wait to be re-sent.
pub Reachable_lem :
    {total : ℕ} {u : Upload}
    → Reachable total u
    → (u.upto ≤ u.total)
      × All IsPlaced (take u.upto u.placed)
      × All (IsInRing (length u.ring)) u.placed
      × (length u.demoted ≤ length u.ring - 1)
      × All (λ i. i < u.total) u.retry_queue
Reachable_lem r =
    let (a, b, c, p, inside, few, q, n) = Reachable-IsWellFormed r in
    (c, take-IsPlaced _ _ (omega arith) p, inside, few, q)
