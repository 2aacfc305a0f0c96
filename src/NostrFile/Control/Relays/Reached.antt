-- ===== src/NostrFile/Control/Relays/Reached.antt =====
-- A control channel's relays of control.rs over any sequence of its operations.
use ptransfer_cli.Common.{
  ℕ, ◌+◌, ◌≤◌, ◌<◌, ◌≡◌, refl, sym, subst, ◌∙◌, min, List, [], ◌∷◌, Option, none, some, inl, inr,
  true, Bool-cases, leb, length, all, arith,
}
use ptransfer_cli.NostrFile.Control.{has_relay, control_relay_max}
use ptransfer_cli.NostrFile.Control.Relays.{
  ControlRelaySet, take_new, new_from, new, tally_of, set_tally, accepted, is_spared, demote_by,
  gave_up, accept_one, accept_from, accept,
}
use ptransfer_cli.NostrFile.Control.Distinct.{is_distinct}
use ptransfer_cli.NostrFile.Control.Relays.Kept.{
  IsSound, new_from-IsSound, accept_from-IsSound, remove-all, remove-is_distinct, length-remove,
}

module _ (normalize : List ℕ → Option (List ℕ)) where
  -- What a channel does to its set.
  pub data Step : ControlRelaySet → ControlRelaySet → Type 0 where
    accepts : {s : ControlRelaySet} (relays : List (List ℕ)) → Step s (accept normalize s relays).0
    counts : {s : ControlRelaySet} (relay : List ℕ) → Step s (accepted s relay)
    gives_up : {s : ControlRelaySet} (relay : List ℕ) → Step s (gave_up s relay).0

  pub data Reachable (relays : List (List ℕ)) (policy : Option ℕ) : ControlRelaySet → Type 0 where
    starts : Reachable relays policy (new relays policy)
    steps :
        {s t : ControlRelaySet} → Reachable relays policy s → Step s t → Reachable relays policy t

-- The number of relays that are published to whatever happens: the policy's, or all where there is none,
-- and no more than there were.
abbrev pub floor_of : Option ℕ → ℕ → ℕ
floor_of none count = count
floor_of (some min_relays) count = min min_relays count

demote_by-IsSound :
    (policy : Option ℕ) (count : ℕ) (s : ControlRelaySet) (relay : List ℕ) (tally : ℕ × ℕ)
    → IsSound (floor_of policy count) s
    → IsSound (floor_of policy count) (demote_by policy s relay tally).0
demote_by-IsSound none count s relay tally w = w
demote_by-IsSound (some min_relays) count s relay tally w =
    elim (Bool-cases (is_spared s min_relays tally)) [
      | inl e ↦ rw e w
      | inr e ↦
          let (within, distinct, fewer, bound, enough) = w in
          let above : min_relays < length s.active = ground (arith, e) in
          let (less, one) = length-remove relay s.active in
          rw e (
            remove-all (λ a. has_relay a s.known) relay s.active within,
            remove-is_distinct relay s.active distinct,
            omega arith,
            bound,
            omega arith,
          )
    ]

demote_by-policy :
    (policy : Option ℕ) (s : ControlRelaySet) (relay : List ℕ) (tally : ℕ × ℕ)
    → (demote_by policy s relay tally).0.policy ≡ s.policy
demote_by-policy none s relay tally = refl
demote_by-policy (some min_relays) s relay tally =
    elim (Bool-cases (is_spared s min_relays tally)) [ inl e ↦ rw e refl | inr e ↦ rw e refl ]

take_new-policy : (s : ControlRelaySet) (r : List ℕ) → (take_new s r).policy ≡ s.policy
take_new-policy s r = elim (Bool-cases (has_relay r s.known)) [
  | inl e ↦ rw e refl
  | inr e ↦ rw e refl
]

new_from-policy :
    (s : ControlRelaySet) (relays : List (List ℕ)) → (new_from s relays).policy ≡ s.policy
unfolding new_from
new_from-policy s [] = refl
new_from-policy s (r ∷ relays) = new_from-policy (take_new s r) relays ∙ take_new-policy s r

new-IsSound :
    (relays : List (List ℕ)) (policy : Option ℕ)
    → length relays ≤ control_relay_max
    → IsSound (floor_of policy (length (new relays policy).active)) (new relays policy)
unfolding new
new-IsSound relays policy few =
    let empty : ControlRelaySet = record {
      active = [];
      known = [];
      settled = [];
      policy = policy;
    } in
    let (within, distinct, fewer, bound, enough) =
      new_from-IsSound 0 empty relays (omega (arith, few))
        (refl, refl, omega arith, omega arith, omega arith) in
    (within, distinct, fewer, bound, below policy (length (new_from empty relays).active))
  where
    below : (p : Option ℕ) (count : ℕ) → floor_of p count ≤ count
    below none count = omega arith
    below (some min_relays) count = omega arith

module _ (normalize : List ℕ → Option (List ℕ)) where
  accept_one-policy :
      (s : ControlRelaySet) (fresh : List (List ℕ)) (url : Option (List ℕ))
      → (accept_one normalize s fresh url).0.policy ≡ s.policy
  accept_one-policy s fresh none = refl
  accept_one-policy s fresh (some url) = elim (Bool-cases (has_relay url s.known)) [
    | inl e ↦ rw e refl
    | inr e ↦ rw e refl
  ]

  accept_from-policy :
      (s : ControlRelaySet) (fresh relays : List (List ℕ))
      → (accept_from normalize s fresh relays).0.policy ≡ s.policy
  unfolding accept_from
  accept_from-policy s fresh [] = refl
  accept_from-policy s fresh (r ∷ relays) =
      let next = accept_one normalize s fresh (normalize r) in
      elim (Bool-cases (leb control_relay_max (length s.known))) [
        | inl e ↦ rw e refl
        | inr e ↦
            rw e (accept_from-policy next.0 next.1 relays ∙ accept_one-policy s fresh (normalize r))
      ]

  -- Sound, and still under the same policy.
  abbrev IsKept : Option ℕ → ℕ → ControlRelaySet → Type 0
  IsKept policy count s = (s.policy ≡ policy) × IsSound (floor_of policy count) s

  gave_up-IsKept :
      (policy : Option ℕ) (count : ℕ) (s : ControlRelaySet) (relay : List ℕ)
      → IsKept policy count s
      → IsKept policy count (gave_up s relay).0
  unfolding gave_up
  gave_up-IsKept policy count s relay (e, w) =
      let before = tally_of relay s.settled in
      let tally : ℕ × ℕ = (before.0, before.1 + 1) in
      let t : ControlRelaySet = record s { settled = set_tally relay tally s.settled } in
      let sound = subst (λ p. IsSound (floor_of p count) t) (sym e) w in
      (
        demote_by-policy s.policy t relay tally ∙ e,
        subst (λ p. IsSound (floor_of p count) (demote_by s.policy t relay tally).0) e
            (demote_by-IsSound s.policy count t relay tally sound),
      )

  Step-IsKept :
      (policy : Option ℕ) (count : ℕ) {s t : ControlRelaySet}
      → Step normalize s t
      → IsKept policy count s
      → IsKept policy count t
  unfolding accept accepted
  Step-IsKept policy count {s = s} (accepts relays) (e, w) = (
    accept_from-policy s [] relays ∙ e,
    accept_from-IsSound normalize (floor_of policy count) s [] relays w,
  )
  Step-IsKept policy count (counts relay) w = w
  Step-IsKept policy count {s = s} (gives_up relay) w = gave_up-IsKept policy count s relay w

  Reachable-IsKept :
      {relays : List (List ℕ)} {policy : Option ℕ} {s : ControlRelaySet}
      → length relays ≤ control_relay_max
      → Reachable normalize relays policy s
      → IsKept policy (length (new relays policy).active) s
  Reachable-IsKept {relays = relays} {policy = policy} few starts =
      (unchanged, new-IsSound relays policy few)
    where
      unchanged : (new relays policy).policy ≡ policy
      unchanged = unfold new in new_from-policy _ relays
  Reachable-IsKept {relays = relays} {policy = policy} few (steps r e) =
      Step-IsKept policy (length (new relays policy).active) e (Reachable-IsKept few r)

  -- A channel opened with at most 10 relays, whatever it then takes on and whatever its publishes come
  -- to: every relay that it publishes to is one that it listens to, none is published to twice, it never
  -- listens to more than 10, and it never publishes to fewer than its policy's minimum, or than it
  -- began with where that is fewer or where it has no policy.
  pub Reachable-IsSound :
      {relays : List (List ℕ)} {policy : Option ℕ} {s : ControlRelaySet}
      → length relays ≤ 10
      → Reachable normalize relays policy s
      → (all (λ a. has_relay a s.known) s.active ≡ true)
        × (is_distinct s.active ≡ true)
        × (length s.known ≤ 10)
        × (floor_of policy (length (new relays policy).active) ≤ length s.active)
  Reachable-IsSound few r =
      let (e, (within, distinct, fewer, bound, enough)) = Reachable-IsKept few r in
      (within, distinct, bound, enough)
