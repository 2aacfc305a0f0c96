-- ===== src/NostrFile/Control/Relays/Kept.antt =====
-- What a set of control relays keeps, whatever is taken on, accepted and given up.
use ptransfer_cli.Common.{
  ℕ, suc, ◌+◌, ◌≤◌, ◌<◌, ◌≡◌, refl, sym, ap, ◌∙◌, List, [], ◌∷◌, Option, none, some, inl, inr, Bool,
  true, false, Bool-cases, leb, if◌then◌else◌, length, length-append, all, all-append, arith,
}
use ptransfer_cli.Common.Bytes.{bytes_eq, bytes_eq_refl, bytes_eq→eq}
use ptransfer_cli.NostrFile.Control.{has_relay, control_relay_max}
use ptransfer_cli.NostrFile.Control.Distinct.{is_distinct, is_distinct-append}
use ptransfer_cli.NostrFile.Control.Relays.{
  ControlRelaySet, take_on, take_new, new_from, remove, accept_one, accept_from,
}

-- A relay that is not known is not published to.
outside :
    (r : List ℕ) (known active : List (List ℕ))
    → all (λ a. has_relay a known) active ≡ true
    → has_relay r known ≡ false
    → has_relay r active ≡ false
outside r known [] h e = refl
outside r known (a ∷ rest) h e =
    let here : has_relay a known ≡ true = ground arith in
    let later : all (λ x. has_relay x known) rest ≡ true = ground arith in
    elim (Bool-cases (bytes_eq r a)) [
      | inl same ↦
          let wrong : false ≡ true =
            sym e ∙ ap (λ x. has_relay x known) (bytes_eq→eq r a same) ∙ here in
          absurd cc
      | inr other ↦ rw other (outside r known rest later e)
    ]

all-known :
    (r : List ℕ) (known active : List (List ℕ))
    → all (λ a. has_relay a known) active ≡ true
    → all (λ a. has_relay a (r ∷ known)) active ≡ true
all-known r known [] h = refl
all-known r known (a ∷ rest) h =
    let later = all-known r known rest (ground (arith, h)) in ground (arith, h, later)

-- Every relay published to is listened to, none twice; no more are known than a channel may hold, and
-- no fewer are published to than at the floor.
abbrev pub IsSound : ℕ → ControlRelaySet → Type 0
IsSound floor s =
    (all (λ a. has_relay a s.known) s.active ≡ true)
    × (is_distinct s.active ≡ true)
    × (length s.active ≤ length s.known)
    × (length s.known ≤ control_relay_max)
    × (floor ≤ length s.active)

take_on-IsSound :
    (floor : ℕ) (s : ControlRelaySet) (r : List ℕ)
    → has_relay r s.known ≡ false
    → length s.known < control_relay_max
    → IsSound floor s
    → IsSound floor (take_on s r)
take_on-IsSound floor s r fresh room (within, distinct, fewer, bound, enough) =
    let self : has_relay r (r ∷ s.known) ≡ true = rw (bytes_eq_refl r) refl in
    (
      all-append (λ a. has_relay a (r ∷ s.known)) s.active (r ∷ [])
          ∙ rw (all-known r s.known s.active within, self) refl,
      is_distinct-append s.active r distinct (outside r s.known s.active within fresh),
      omega (arith, length-append s.active (r ∷ [])),
      omega arith,
      omega (arith, length-append s.active (r ∷ [])),
    )

pub take_new-IsSound :
    (floor : ℕ) (s : ControlRelaySet) (r : List ℕ)
    → length s.known < control_relay_max
    → IsSound floor s
    → IsSound floor (take_new s r)
take_new-IsSound floor s r room w = by_known (has_relay r s.known) refl
  where
    by_known : (b : Bool) → has_relay r s.known ≡ b → IsSound floor (if b then s else take_on s r)
    by_known true e = w
    by_known false e = take_on-IsSound floor s r e room w

pub new_from-IsSound :
    (floor : ℕ) (s : ControlRelaySet) (relays : List (List ℕ))
    → length s.known + length relays ≤ control_relay_max
    → IsSound floor s
    → IsSound floor (new_from s relays)
unfolding new_from
new_from-IsSound floor s [] room w = w
new_from-IsSound floor s (r ∷ relays) room w =
    new_from-IsSound floor (take_new s r) relays (omega (arith, grown (has_relay r s.known)))
      (take_new-IsSound floor s r (omega arith) w)
  where
    grown : (b : Bool) → length (if b then s else take_on s r).known ≤ suc (length s.known)
    grown true = omega arith
    grown false = omega arith

module _ (normalize : List ℕ → Option (List ℕ)) where
  accept_one-IsSound :
      (floor : ℕ) (s : ControlRelaySet) (fresh : List (List ℕ)) (url : Option (List ℕ))
      → length s.known < control_relay_max
      → IsSound floor s
      → IsSound floor (accept_one normalize s fresh url).0
  accept_one-IsSound floor s fresh none room w = w
  accept_one-IsSound floor s fresh (some url) room w = elim (Bool-cases (has_relay url s.known)) [
    | inl e ↦ rw e w
    | inr e ↦ rw e (take_on-IsSound floor s url e room w)
  ]

  pub accept_from-IsSound :
      (floor : ℕ) (s : ControlRelaySet) (fresh relays : List (List ℕ))
      → IsSound floor s
      → IsSound floor (accept_from normalize s fresh relays).0
  unfolding accept_from
  accept_from-IsSound floor s fresh [] w = w
  accept_from-IsSound floor s fresh (r ∷ relays) w =
      elim (Bool-cases (leb control_relay_max (length s.known))) [
        | inl e ↦ rw e w
        | inr e ↦ rw e (
            accept_from-IsSound floor (accept_one normalize s fresh (normalize r)).0
              (accept_one normalize s fresh (normalize r)).1 relays
              (accept_one-IsSound floor s fresh (normalize r) (ground (arith, e)) w))
      ]

remove-has :
    (y r : List ℕ) (xs : List (List ℕ)) → has_relay y xs ≡ false → has_relay y (remove r xs) ≡ false
unfolding remove
remove-has y r [] h = refl
remove-has y r (x ∷ xs) h = elim (Bool-cases (bytes_eq r x)) [
  | inl e ↦ rw e (ground (arith, h))
  | inr e ↦ let later = remove-has y r xs (ground (arith, h)) in rw e (ground (arith, h, later))
]

pub remove-all :
    (p : List ℕ → Bool) (r : List ℕ) (xs : List (List ℕ))
    → all p xs ≡ true
    → all p (remove r xs) ≡ true
unfolding remove
remove-all p r [] h = refl
remove-all p r (x ∷ xs) h = elim (Bool-cases (bytes_eq r x)) [
  | inl e ↦ rw e (ground (arith, h))
  | inr e ↦ let later = remove-all p r xs (ground (arith, h)) in rw e (ground (arith, h, later))
]

pub remove-is_distinct :
    (r : List ℕ) (xs : List (List ℕ)) → is_distinct xs ≡ true → is_distinct (remove r xs) ≡ true
unfolding remove
remove-is_distinct r [] h = refl
remove-is_distinct r (x ∷ xs) h = elim (Bool-cases (bytes_eq r x)) [
  | inl e ↦ rw e (ground (arith, h))
  | inr e ↦
      let alone = remove-has x r xs (ground (arith, h)) in
      let later = remove-is_distinct r xs (ground (arith, h)) in rw e (ground (arith, alone, later))
]

pub length-remove :
    (r : List ℕ) (xs : List (List ℕ))
    → (length (remove r xs) ≤ length xs) × (length xs ≤ suc (length (remove r xs)))
unfolding remove
length-remove r [] = (omega arith, omega arith)
length-remove r (x ∷ xs) = elim (Bool-cases (bytes_eq r x)) [
  | inl e ↦ rw e (omega arith, omega arith)
  | inr e ↦ let (fewer, one) = length-remove r xs in rw e (omega arith, omega arith)
]
