-- ===== src/NostrFile/Control/Relays/Demoted.antt =====
-- When a control channel of control.rs names a relay as demoted.
use ptransfer_cli.Common.{
  ℕ, suc, ◌+◌, ◌≤◌, ◌<◌, ◌≡◌, refl, ap, sym, subst, List, [], ◌∷◌, ◌++◌, Option, none, some, inl,
  inr, Bool, true, false, Bool-cases, if◌then◌else◌, length, arith,
}
use ptransfer_cli.Common.Bytes.{bytes_eq, bytes_eq→eq}
use ptransfer_cli.NostrFile.Control.{has_relay}
use ptransfer_cli.NostrFile.Control.Relays.{
  ControlRelaySet, tally_of, set_tally, remove, is_spared, demote_by, gave_up,
}

-- `remove` takes out the first of a relay, and nothing else.
abbrev pub IsRemoved : List ℕ → List (List ℕ) → List (List ℕ) → Type 0
IsRemoved r xs left =
    (before : List (List ℕ)) × (after : List (List ℕ)) × (xs ≡ before ++ r ∷ after)
    × (left ≡ before ++ after)
    × (has_relay r before ≡ false)

remove-IsRemoved :
    (r : List ℕ) (xs : List (List ℕ)) → has_relay r xs ≡ true → IsRemoved r xs (remove r xs)
unfolding remove
remove-IsRemoved r [] h = cc
remove-IsRemoved r (x ∷ xs) h = elim (Bool-cases (bytes_eq r x)) [
  | inl e ↦ ([], xs, ap (λ y. y ∷ xs) (sym (bytes_eq→eq r x e)), rw e refl, refl)
  | inr e ↦
      let (before, after, split, left, first) = remove-IsRemoved r xs (ground (arith, h, e)) in
      (x ∷ before, after, ap (λ l. x ∷ l) split, rw e (ap (λ l. x ∷ l) left), rw (e, first) refl)
]

-- What condemns a relay, from what it accepted and gave up.
abbrev IsCondemned : Option ℕ → ControlRelaySet → List ℕ → ℕ → ℕ → Type 0
IsCondemned policy s relay taken given_up =
    (min_relays : ℕ) × (policy ≡ some min_relays)
    × (min_relays < length s.active)
    × (6 ≤ taken + given_up)
    × (taken ≤ given_up)
    × (has_relay relay s.active ≡ true)

unspared :
    (b has : Bool) (s t : ControlRelaySet)
    → (if◌then◌else◌ {A = ControlRelaySet × Bool} b (s, false) (t, has)).1 ≡ true
    → (b ≡ false) × (has ≡ true)
unspared true has s t h = cc
unspared false has s t h = (refl, h)

demote_by-IsCondemned :
    (policy : Option ℕ) (s : ControlRelaySet) (relay : List ℕ) (taken given_up : ℕ)
    → (demote_by policy s relay (taken, given_up)).1 ≡ true
    → IsCondemned policy s relay taken given_up
      × ((demote_by policy s relay (taken, given_up)).0.active ≡ remove relay s.active)
demote_by-IsCondemned none s relay taken given_up h = cc
demote_by-IsCondemned (some min_relays) s relay taken given_up h =
    let (e, there) =
      unspared (is_spared s min_relays (taken, given_up)) (has_relay relay s.active) s
        (record s { active = remove relay s.active }) h in
    ((min_relays, refl, ground (arith, e), ground (arith, e), ground (arith, e), there), rw e refl)

-- A relay is named as demoted only under a policy, above its minimum, after at least six publishes of
-- which at least half were given up, this one counted. The relay was among those published to, and
-- afterwards these are the same, in their order, without it.
pub gave_up-demoted :
    (s : ControlRelaySet) (relay : List ℕ)
    → (gave_up s relay).1 ≡ true
    → (min_relays : ℕ) × (s.policy ≡ some min_relays)
      × (min_relays < length s.active)
      × (6 ≤ (tally_of relay s.settled).0 + suc (tally_of relay s.settled).1)
      × ((tally_of relay s.settled).0 ≤ suc (tally_of relay s.settled).1)
      × IsRemoved relay s.active (gave_up s relay).0.active
unfolding gave_up
gave_up-demoted s relay h =
    let before = tally_of relay s.settled in
    let t : ControlRelaySet = record s {
      settled = set_tally relay (before.0, before.1 + 1) s.settled;
    } in
    let ((min_relays, policy, above, enough, half, there), left) =
      demote_by-IsCondemned s.policy t relay before.0 (before.1 + 1) h in
    (
      min_relays,
      policy,
      above,
      omega (arith, enough),
      omega (arith, half),
      subst (IsRemoved relay s.active) (sym left) (remove-IsRemoved relay s.active there),
    )
