-- ===== src/NostrFile/Control/Canonical.antt =====
-- Relay lists in normal form, as control.rs checks them.
use ptransfer_cli.Common.{
  ℕ, ◌≡◌, refl, List, [], ◌∷◌, Option, some, Bool, true, false, not, all, All, ok, arith,
}
use ptransfer_cli.Common.Bytes.{bytes_eq}
use ptransfer_cli.NostrFile.Control.{has_relay, check_relays}
use ptransfer_cli.NostrFile.Control.Distinct.{is_distinct, bytes_eq_sym}

-- Relays that are as they normalize, each named once.
abbrev pub IsCanonical : (List ℕ → Option (List ℕ)) → List (List ℕ) → Type 0
IsCanonical normalize relays = All (λ r. normalize r ≡ some r) relays × (is_distinct relays ≡ true)

-- None of the relays was seen.
abbrev is_unseen : List (List ℕ) → List (List ℕ) → Bool
is_unseen seen relays = all (λ r. not (has_relay r seen)) relays

is_unseen_next :
    (r : List ℕ) (seen relays : List (List ℕ))
    → has_relay r relays ≡ false
    → is_unseen seen relays ≡ true
    → is_unseen (r ∷ seen) relays ≡ true
is_unseen_next r seen [] h u = refl
is_unseen_next r seen (q ∷ relays) h u =
    let apart : bytes_eq q r ≡ false = bytes_eq_sym r q (ground (arith, h)) in
    let later = is_unseen_next r seen relays (ground (arith, h)) (ground (arith, u)) in
    ground (arith, u, apart, later)

check_relays-unseen :
    (normalize : List ℕ → Option (List ℕ)) (seen relays : List (List ℕ))
    → All (λ r. normalize r ≡ some r) relays
    → is_distinct relays ≡ true
    → is_unseen seen relays ≡ true
    → check_relays normalize seen relays ≡ ok tt
unfolding check_relays
check_relays-unseen normalize seen [] c d u = refl
check_relays-unseen normalize seen (r ∷ relays) (c, cs) d u =
    let fresh : has_relay r seen ≡ false = ground (arith, u) in
    let alone : has_relay r relays ≡ false = ground (arith, d) in
    let later =
      check_relays-unseen normalize (r ∷ seen) relays cs (ground (arith, d))
        (is_unseen_next r seen relays alone (ground (arith, u))) in
    rw (c, fresh) later

pub check_relays-IsCanonical :
    (normalize : List ℕ → Option (List ℕ)) (relays : List (List ℕ))
    → IsCanonical normalize relays
    → check_relays normalize [] relays ≡ ok tt
check_relays-IsCanonical normalize relays (c, d) =
    check_relays-unseen normalize [] relays c d (none_seen relays)
  where
    none_seen : (rs : List (List ℕ)) → is_unseen [] rs ≡ true
    none_seen [] = refl
    none_seen (r ∷ rs) = none_seen rs
