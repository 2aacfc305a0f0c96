-- ===== src/Z85/Groups.antt =====
-- One group of z85.rs: what its digits are, and that they read back.
use ptransfer_cli.Common.{
  ℕ, zero, suc, ◌+◌, ◌-◌, ◌*◌, ◌/◌, ◌%◌, ◌^◌, ◌≤◌, ◌<◌, ◌≡◌, refl, ap, List, [], ◌∷◌, none, some,
  Bool, true, false, ◌==◌, ==_iff, length, get_or, get_elem?, drop, take, map, All, All-take,
  if◌then◌else◌, Result, ok, err, holds_below, holds_below_lem, arith,
}
use native.Mathlib.Numerals.{add-one}
use ptransfer_cli.Common.Bytes.{IsByte, be32, from_be32}
use ptransfer_cli.Z85.{
  Error, alphabet, group_word, write_digits, encode_group, digit_value, group_digit, read_digits,
  decode_group,
}

abbrev pub letter : ℕ → ℕ
letter i = get_or alphabet i 0

reads_back : Result Error ℕ → ℕ → Bool
reads_back (ok v) i = v == i
reads_back (err e) i = false

reads_back→eq : (r : Result Error ℕ) (i : ℕ) → reads_back r i ≡ true → r ≡ ok i
unfolding reads_back
reads_back→eq (ok v) i h = ap ok ((==_iff v i).0 h)
reads_back→eq (err e) i h = cc

-- The alphabet has no letter twice.
digit_value-letter : (i : ℕ) → i < 85 → digit_value (letter i) ≡ ok i
digit_value-letter i h =
    reads_back→eq (digit_value (letter i)) i
      (holds_below_lem (λ j. reads_back (digit_value (letter j)) j) 85 i h table)
  where
    table : holds_below (λ j. reads_back (digit_value (letter j)) j) 85 ≡ true
    table = unfold holds_below reads_back digit_value in refl

at_drop {ℓ} :
    {A : Type ℓ} (xs : List A) (i : ℕ) (y : A) (ys : List A)
    → drop i xs ≡ y ∷ ys
    → (get_elem? xs i ≡ some y) × (drop (suc i) xs ≡ ys)
at_drop [] zero y ys h = cc
at_drop [] (suc i) y ys h = cc
at_drop (x ∷ xs) zero y ys h = ground arith
at_drop (x ∷ xs) (suc i) y ys h = at_drop xs i y ys h

past_drop {ℓ} :
    {A : Type ℓ} (xs : List A) (i : ℕ)
    → drop i xs ≡ []
    → (get_elem? xs i ≡ none) × (drop (suc i) xs ≡ [])
past_drop [] zero h = (refl, refl)
past_drop [] (suc i) h = (refl, refl)
past_drop (x ∷ xs) zero h = cc
past_drop (x ∷ xs) (suc i) h = past_drop xs i h

-- The digits of a group, padded as the decoder pads them, and the number that they spell.
abbrev pub padded : ℕ → List ℕ → List ℕ
padded zero ds = []
padded (suc rounds) [] = 84 ∷ padded rounds []
padded (suc rounds) (d ∷ ds) = d ∷ padded rounds ds

abbrev pub horner : ℕ → List ℕ → ℕ
horner value [] = value
horner value (d ∷ ds) = horner (value * 85 + d) ds

abbrev pub IsDigit : ℕ → Type 0
IsDigit d = d < 85

read_digits-letters :
    (rounds : ℕ) (group ds : List ℕ) (index value : ℕ)
    → drop index group ≡ map letter ds
    → All IsDigit ds
    → read_digits group rounds index value ≡ ok (horner value (padded rounds ds))
unfolding read_digits group_digit
read_digits-letters zero group ds index value e h = refl
read_digits-letters (suc rounds) group [] index value e h =
    let (at, next) = past_drop group index e in
    rw at (rw add-one (read_digits-letters rounds group [] (suc index) (value * 85 + 84) next tt))
read_digits-letters (suc rounds) group (d ∷ ds) index value e h =
    let (at, next) = at_drop group index (letter d) (map letter ds) e in
    rw (at, digit_value-letter d h.0)
      (rw add-one (read_digits-letters rounds group ds (suc index) (value * 85 + d) next h.1))

-- The five digits of a word, the first of them the highest.
abbrev pub digits5 : ℕ → List ℕ
digits5 w =
    (w / 85 / 85 / 85 / 85 % 85)
    ∷ (w / 85 / 85 / 85 % 85)
    ∷ (w / 85 / 85 % 85)
    ∷ (w / 85 % 85)
    ∷ (w % 85)
    ∷ []

pub encode_group-word :
    (group : List ℕ) (w : ℕ)
    → group_word group 4 0 0 ≡ w
    → encode_group group
      ≡ take (if length group == 4 then 5 else length group + 1) (map letter (digits5 w))
unfolding encode_group write_digits
encode_group-word group w e = rw e

pub decode_group-letters :
    (ds : List ℕ)
    → All IsDigit ds
    → horner 0 (padded 5 ds) < 2 ^ 32
    → decode_group (map letter ds)
      ≡ ok (
          take
            (if length (map letter ds) == 5 then 4 else length (map letter ds) - 1)
            (be32 (horner 0 (padded 5 ds))))
unfolding decode_group
decode_group-letters ds h fits =
    rw (read_digits-letters 5 (map letter ds) ds 0 0 refl h) (ground arith)

-- The digits of a word, cut to `k`, and padded by the decoder.
module _ (a : ℕ) (ha : IsByte a) where
  pub one_word : group_word (a ∷ []) 4 0 0 ≡ from_be32 a 0 0 0
  unfolding group_word
  one_word = omega arith

module _ (a b : ℕ) (ha : IsByte a) (hb : IsByte b) where
  pub two_words : group_word (a ∷ b ∷ []) 4 0 0 ≡ from_be32 a b 0 0
  unfolding group_word
  two_words = omega arith

module _ (a b c : ℕ) (ha : IsByte a) (hb : IsByte b) (hc : IsByte c) where
  pub three_words : group_word (a ∷ b ∷ c ∷ []) 4 0 0 ≡ from_be32 a b c 0
  unfolding group_word
  three_words = omega arith

module _ (a b c d : ℕ) (ha : IsByte a) (hb : IsByte b) (hc : IsByte c) (hd : IsByte d) where
  pub four_words : group_word (a ∷ b ∷ c ∷ d ∷ []) 4 0 0 ≡ from_be32 a b c d
  unfolding group_word
  four_words = omega arith

pub digits5-horner : (w : ℕ) → w < 2 ^ 32 → horner 0 (digits5 w) ≡ w
digits5-horner w h = omega arith

-- Padding raises the word by less than the bytes that were cut can hold.
pub digits5-cut :
    (w : ℕ)
    → w < 2 ^ 32
    → (w ≤ horner 0 (padded 5 (take 4 (digits5 w))))
      × (horner 0 (padded 5 (take 4 (digits5 w))) < w + 85)
      × (w ≤ horner 0 (padded 5 (take 3 (digits5 w))))
      × (horner 0 (padded 5 (take 3 (digits5 w))) < w + 85 * 85)
      × (w ≤ horner 0 (padded 5 (take 2 (digits5 w))))
      × (horner 0 (padded 5 (take 2 (digits5 w))) < w + 85 * 85 * 85)
digits5-cut w h = omega arith

pub digits5-IsDigit : (w k : ℕ) → All IsDigit (take k (digits5 w))
digits5-IsDigit w k = All-take IsDigit k (digits5 w) (omega arith)

-- A word within the padding's reach of four bytes has their leading ones.
pub be32_leading :
    (a b c d v : ℕ)
    → IsByte a
    → IsByte b
    → IsByte c
    → IsByte d
    → from_be32 a b c d ≤ v
    → ((v < from_be32 a b c d + 1) → be32 v ≡ a ∷ b ∷ c ∷ d ∷ [])
      × ((v < from_be32 a b c 0 + 256) → take 3 (be32 v) ≡ a ∷ b ∷ c ∷ [])
      × ((v < from_be32 a b 0 0 + 2 ^ 16) → take 2 (be32 v) ≡ a ∷ b ∷ [])
      × ((v < from_be32 a 0 0 0 + 2 ^ 24) → take 1 (be32 v) ≡ a ∷ [])
be32_leading a b c d v ha hb hc hd le =
    ((λ h. ground arith), (λ h. ground arith), (λ h. ground arith), λ h. ground arith)
