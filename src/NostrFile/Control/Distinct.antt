-- ===== src/NostrFile/Control/Distinct.antt =====
-- Relay lists that name no relay twice.
use ptransfer_cli.Common.{
  ℕ, ◌≡◌, refl, sym, ap, ◌∙◌, List, [], ◌∷◌, ◌++◌, inl, inr, Bool, true, false, Bool-cases, not,
  ◌&&◌, ◌||◌, arith,
}
use ptransfer_cli.Common.Bytes.{bytes_eq, bytes_eq_refl, bytes_eq→eq}
use ptransfer_cli.NostrFile.Control.{has_relay}

abbrev pub is_distinct : List (List ℕ) → Bool
is_distinct [] = true
is_distinct (x ∷ xs) = not (has_relay x xs) && is_distinct xs

pub bytes_eq_sym : (x y : List ℕ) → bytes_eq x y ≡ false → bytes_eq y x ≡ false
bytes_eq_sym x y h = elim (Bool-cases (bytes_eq y x)) [
  | inl e ↦
      let same : y ≡ x = bytes_eq→eq y x e in
      let wrong : true ≡ false = sym (bytes_eq_refl x) ∙ ap (bytes_eq x) (sym same) ∙ h in absurd cc
  | inr e ↦ e
]

pub has_relay-append :
    (r : List ℕ) (xs ys : List (List ℕ)) → has_relay r (xs ++ ys) ≡ has_relay r xs || has_relay r ys
has_relay-append r [] ys = refl
has_relay-append r (x ∷ xs) ys = ground (arith, has_relay-append r xs ys)

pub is_distinct-append :
    (xs : List (List ℕ)) (r : List ℕ)
    → is_distinct xs ≡ true
    → has_relay r xs ≡ false
    → is_distinct (xs ++ r ∷ []) ≡ true
is_distinct-append [] r d h = refl
is_distinct-append (x ∷ xs) r d h =
    let apart : bytes_eq x r ≡ false = bytes_eq_sym r x (ground (arith, h)) in
    let alone : has_relay x xs ≡ false = ground (arith, d) in
    let later = is_distinct-append xs r (ground (arith, d)) (ground (arith, h)) in
    rw (has_relay-append x xs (r ∷ []), alone, apart, later) refl
