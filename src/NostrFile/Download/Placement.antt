-- ===== src/NostrFile/Download/Placement.antt =====
-- What an announcement of upload.rs means to the receiver of download.rs.
use ptransfer_cli.Common.{
  ℕ, zero, suc, ◌≤◌, ◌<◌, ◌≡◌, refl, sym, subst, ap, ◌∙◌, map, List, [], ◌∷◌, Option, none, some,
  Bool, false, length, get_or, get_elem?, take, Result, ok, err, ◌>>=◌, and_then, arith,
}
use ptransfer_cli.NostrFile.Manifest.{NostrFileManifest}
use ptransfer_cli.NostrFile.Control
use ptransfer_cli.NostrFile.Control.{SenderMessage, avail, check_relays, set_counter}
use ptransfer_cli.NostrFile.Upload
use ptransfer_cli.NostrFile.Upload.{Upload, announce_from, announcement}
use ptransfer_cli.NostrFile.Upload.WellFormed.{in_ring_at}
use ptransfer_cli.NostrFile.Upload.Invariant.{Reachable, Reachable-IsWellFormed}
use ptransfer_cli.NostrFile.Upload.Announce.{validate-announced}
use ptransfer_cli.NostrFile.Download.{
  Download, generation_of, or_zero, placement, read_map, is_pinned_elsewhere, is_ignored, is_ok,
  total_of, adopted_ring, announced, take_message, handle,
}
use ptransfer_cli.NostrFile.Download.Resends.{announce_from-Reads}

get_or-map : (xs : List ℕ) (i : ℕ) → get_or (map some xs) i none ≡ get_elem? xs i
get_or-map [] i = refl
get_or-map (x ∷ xs) zero = refl
get_or-map (x ∷ xs) (suc i) = get_or-map xs i

get_or-take :
    (n : ℕ) (xs : List (Option ℕ)) (i : ℕ) → i < n → get_or (take n xs) i none ≡ get_or xs i none
get_or-take zero xs i h = absurd (omega arith)
get_or-take (suc n) [] i h = refl
get_or-take (suc n) (x ∷ xs) zero h = refl
get_or-take (suc n) (x ∷ xs) (suc i) h = get_or-take n xs i (omega arith)

abbrev told : Upload → List (List ℕ) → List ℕ × List (ℕ × ℕ) → Result Upload.Error SenderMessage
told u ctl (chars, gens) = ok (avail 0 u.upto u.ring chars gens ctl)

-- The loop's output, from the message made of it.
told_from :
    (u : Upload) (ctl : List (List ℕ)) (r : Result Upload.Error (List ℕ × List (ℕ × ℕ)))
    {chars : List ℕ} {gens : List (ℕ × ℕ)}
    → (r >>= told u ctl) ≡ ok (avail 0 u.upto u.ring chars gens ctl)
    → r ≡ ok (chars, gens)
told_from u ctl (err e) h = cc
told_from u ctl (ok (c, g)) h = cc

announcement_from :
    (u : Upload) (ctl : List (List ℕ)) {chars : List ℕ} {gens : List (ℕ × ℕ)}
    → announcement u ctl ≡ ok (avail 0 u.upto u.ring chars gens ctl)
    → announce_from u 0 u.upto ≡ ok (chars, gens)
unfolding announcement
announcement_from u ctl h = told_from u ctl (announce_from u 0 u.upto) h

module _ (to_hex : ℕ → List ℕ) (expected_name : List ℕ) (normalize : List ℕ → Option (List ℕ)) where
  -- A message that passes the guards is taken.
  handle_heard :
      (s : Download) (msg : SenderMessage) (pubkey now : ℕ)
      → is_ignored to_hex expected_name normalize s msg pubkey ≡ false
      → handle to_hex expected_name normalize s (some msg) pubkey now
        ≡ take_message to_hex expected_name s msg pubkey now
  unfolding handle
  handle_heard s msg pubkey now e = rw e refl

  -- The counter is not among the checks.
  same_checks :
      (n upto : ℕ) (relays : List (List ℕ)) (chars : List ℕ) (gens : List (ℕ × ℕ))
      (ctl : List (List ℕ)) (total : ℕ)
      → Control.validate normalize (avail 0 upto relays chars gens ctl) (some total) ≡ ok tt
      → Control.validate normalize (avail n upto relays chars gens ctl) (some total) ≡ ok tt
  unfolding Control.validate
  same_checks n upto relays chars gens ctl total h = h

  taken :
      (s : Download) (n upto : ℕ) (relays : List (List ℕ)) (chars : List ℕ) (gens : List (ℕ × ℕ))
      (ctl : List (List ℕ)) (pubkey now : ℕ)
      → take_message to_hex expected_name s (avail n upto relays chars gens ctl) pubkey now
        ≡ ok (
            announced to_hex expected_name s (adopted_ring s.ring relays) n upto chars gens ctl now)
  unfolding take_message
  taken s n upto relays chars gens ctl pubkey now = refl

  -- What the state then says of a chunk.
  announced-placement :
      (s : Download) (n upto : ℕ) (relays : List (List ℕ)) (chars : List ℕ) (gens : List (ℕ × ℕ))
      (ctl : List (List ℕ)) (now i : ℕ) (left : Option (List (List ℕ))) {position generation : ℕ}
      → left ≡ some relays
      → get_elem? (read_map chars) i ≡ some position
      → or_zero (generation_of gens i) ≡ generation
      → placement (announced to_hex expected_name s left n upto chars gens ctl now).0 i
        ≡ some (position, generation)
  unfolding placement
  announced-placement s n upto relays chars gens ctl now i none h read g = cc
  announced-placement s n upto relays chars gens ctl now i (some ring) h read g = rw (read, g) refl

  -- Where a receiver has the manifest, is bound to no other identity, and knows no other ring, an
  -- announcement of a moment of the upload whose counter is new is taken: the receiver then sees each
  -- chunk announced at the relay and in the generation that the sender recorded. Here the ring has at
  -- most 16 relays and the control set 1 to 10, distinct after normalization.
  pub placement-handle :
      {total : ℕ} {u : Upload} (s : Download) {m : NostrFileManifest} (ctl : List (List ℕ))
      (n pubkey now : ℕ)
      → Reachable total u
      → length u.ring ≤ 16
      → check_relays normalize [] u.ring ≡ ok tt
      → 1 ≤ length ctl
      → length ctl ≤ 10
      → check_relays normalize [] ctl ≡ ok tt
      → s.described ≡ some m
      → length s.chunks ≡ u.total
      → is_pinned_elsewhere s.sender_pubkey pubkey ≡ false
      → s.last_sender_n < n
      → adopted_ring s.ring u.ring ≡ some u.ring
      → (i : ℕ) → i < u.upto
      → (msg : SenderMessage) × (s' : Download) × (due : Bool) × (position : ℕ) × (announcement u
            ctl
          ≡ ok msg)
        × (handle to_hex expected_name normalize s (some (set_counter msg n)) pubkey now
            ≡ ok (s', due))
        × (get_or u.placed i none ≡ some position)
        × (placement s' i ≡ some (position, get_or u.generation i 0))
  placement-handle {u = u} s ctl n pubkey now r small ring_ok c_low c_high ctl_ok e len unpinned
        fresh ring_known i lt =
      let (chars, gens, sent, passes, same) =
        validate-announced normalize ctl r small ring_ok c_low c_high ctl_ok in
      let (before, within) = announce_from-Reads u 0 u.upto (announcement_from u ctl sent) in
      let (a, b, c, p, inside, few, q, next) = Reachable-IsWellFormed r in
      let (position, placed, low) = in_ring_at (length u.ring) u.placed i inside (p i lt) in
      let known : total_of s ≡ some u.total =
        ap (λ o. and_then o (λ t. some (length s.chunks))) e ∙ ap some len in
      let passes' : Control.validate normalize (avail n u.upto u.ring chars gens ctl) (total_of s)
          ≡ ok tt =
        subst (λ t. Control.validate normalize (avail n u.upto u.ring chars gens ctl) t ≡ ok tt)
          (sym known) (same_checks n u.upto u.ring chars gens ctl u.total passes) in
      let accepted = ap is_ok passes' in
      let heard : is_ignored to_hex expected_name normalize s (avail n u.upto u.ring chars gens ctl)
            pubkey
          ≡ false =
        ground (arith, unpinned, accepted, fresh) in
      let read : get_elem? (read_map chars) i ≡ some position =
        sym (get_or-map (read_map chars) i)
        ∙ ap (λ xs. get_or xs i none) same
        ∙ get_or-take u.upto u.placed i lt
        ∙ placed in
      let left =
        announced to_hex expected_name s (adopted_ring s.ring u.ring) n u.upto chars gens ctl now in
      (
        avail 0 u.upto u.ring chars gens ctl,
        left.0,
        left.1,
        position,
        sent,
        handle_heard s (avail n u.upto u.ring chars gens ctl) pubkey now heard
            ∙ taken s n u.upto u.ring chars gens ctl pubkey now,
        placed,
        announced-placement s n u.upto u.ring chars gens ctl now i (adopted_ring s.ring u.ring)
            ring_known read (within i (omega arith) (omega arith)),
      )
