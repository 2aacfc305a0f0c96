-- ===== src/Crypto/Pin/Checksum.antt =====
-- What the checksum of a PIN detects.
use ptransfer_cli.Common.{
  ℕ, suc, ◌+◌, ◌-◌, ◌*◌, ◌%◌, ◌≤◌, ◌<◌, ◌≡◌, ◌≢◌, refl, sym, ap, ◌∙◌, List, [], ◌∷◌, ◌++◌, Option,
  none, some, some_injective, Option-cases, inl, inr, Bool, true, false, Bool-cases, not, ◌||◌,
  ◌==◌, ==_iff, ltb, ltb→lt, length, get_or, all, holds_below, holds_below_lem, arith,
}
use native.Mathlib.Nat.{add-mul}
use ptransfer_cli.Crypto.Pin.{
  pin_charset, position, position_from, weighted_sum, compute_checksum, checksum_char, in_charset,
}

abbrev char_at : ℕ → ℕ
char_at index = get_or pin_charset index 0

is_at : Option ℕ → ℕ → Bool
is_at none i = false
is_at (some j) i = j == i

is_at→eq : (o : Option ℕ) (i : ℕ) → is_at o i ≡ true → o ≡ some i
unfolding is_at
is_at→eq none i h = cc
is_at→eq (some j) i h = ap some ((==_iff j i).0 h)

-- The alphabet has no character twice.
pub position-char_at : (i : ℕ) → i < 55 → position (char_at i) ≡ some i
position-char_at i h =
    is_at→eq (position (char_at i)) i
      (holds_below_lem (λ j. is_at (position (char_at j)) j) 55 i h table)
  where
    table : holds_below (λ j. is_at (position (char_at j)) j) 55 ≡ true
    table = unfold holds_below is_at position position_from in refl

position_from-facts :
    (i : ℕ) (cs : List ℕ) (byte a : ℕ)
    → position_from i cs byte ≡ some a
    → (i ≤ a) × (a < i + length cs) × (get_or cs (a - i) 0 ≡ byte)
unfolding position_from
position_from-facts i [] byte a h = cc
position_from-facts i (c ∷ cs) byte a h = elim (Bool-cases (c == byte)) [
  | inl e ↦
      let same : i ≡ a = ground (arith, e, h) in
      let here : a - i ≡ 0 = omega (arith, same) in
      (omega (arith, same), omega (arith, same), rw here ((==_iff c byte).0 e))
  | inr e ↦
      let later : position_from (i + 1) cs byte ≡ some a = ground (arith, e, h) in
      let (low, high, found) = position_from-facts (i + 1) cs byte a later in
      let next : a - i ≡ suc (a - (i + 1)) = omega arith in
      (omega arith, omega arith, rw next found)
]

-- A character is the one at its position.
char_at-position : (byte a : ℕ) → position byte ≡ some a → (a < 55) × (char_at a ≡ byte)
char_at-position byte a h =
    let (low, high, found) = position_from-facts 0 pin_charset byte a (unfold position in h) in
    let start : a - 0 ≡ a = omega arith in (high, ap char_at (sym start) ∙ found)

index_or : Option ℕ → ℕ
index_or none = 0
index_or (some index) = index

-- The sum of the weights from index `i` on.
weights : ℕ → List ℕ → ℕ
weights i [] = 0
weights i (x ∷ xs) = index_or (position x) * (i + 1) + weights (i + 1) xs

weights-append :
    (i : ℕ) (xs ys : List ℕ) → weights i (xs ++ ys) ≡ weights i xs + weights (i + length xs) ys
unfolding weights
weights-append i [] ys =
    let start : weights i ys ≡ weights (i + 0) ys = ap (λ k. weights k ys) (omega arith) in
    omega (arith, start)
weights-append i (x ∷ xs) ys =
    let shift : weights (i + 1 + length xs) ys ≡ weights (i + suc (length xs)) ys =
      ap (λ k. weights k ys) (omega arith) in
    omega (arith, weights-append (i + 1) xs ys, shift)

known : (x : ℕ) → in_charset x ≡ true → (a : ℕ) × (position x ≡ some a)
known x h = elim (Option-cases (position x)) [
  | inl e ↦ absurd (ground (arith, e, h))
  | inr (a, e) ↦ (a, e)
]

weighted_sum-weights :
    (i s : ℕ) (xs : List ℕ)
    → all in_charset xs ≡ true
    → weighted_sum i s xs ≡ some (s + weights i xs)
unfolding weighted_sum weights index_or
weighted_sum-weights i s [] h = ap some (omega arith)
weighted_sum-weights i s (x ∷ xs) h =
    let (a, e) = known x (ground (arith, h)) in
    let rest : all in_charset xs ≡ true = ground (arith, h) in
    rw e (weighted_sum-weights (i + 1) (s + a * (i + 1)) xs rest ∙ ap some (omega arith))

compute_checksum-weights :
    (xs : List ℕ) → all in_charset xs ≡ true → compute_checksum xs ≡ char_at (weights 0 xs % 55)
unfolding compute_checksum
compute_checksum-weights xs h =
    let start : 0 + weights 0 xs ≡ weights 0 xs = omega arith in
    ap checksum_char (weighted_sum-weights 0 0 xs h) ∙ ap (λ n. char_at (n % 55)) start

-- The checksum of characters of the alphabet is one.
pub compute_checksum-known :
    (xs : List ℕ) → all in_charset xs ≡ true → in_charset (compute_checksum xs) ≡ true
compute_checksum-known xs h =
    rw (compute_checksum-weights xs h, position-char_at (weights 0 xs % 55) (omega arith)) refl

-- Characters at two places of the alphabet are different.
char_at_injective : (i j : ℕ) → i < 55 → j < 55 → char_at i ≡ char_at j → i ≡ j
char_at_injective i j hi hj e =
    some_injective (sym (position-char_at i hi) ∙ ap position e ∙ position-char_at j hj)

-- A difference of indices times a weight that shares no factor with 55 is no multiple of 55.
misses : ℕ → ℕ → Bool
misses w d = not (d * w % 55 == 0) || (w % 5 == 0) || (w % 11 == 0) || (d == 0)

misses-excludes :
    (w d : ℕ)
    → misses w d ≡ true
    → (w % 5 == 0) ≡ false
    → (w % 11 == 0) ≡ false
    → d * w % 55 ≡ 0
    → d ≡ 0
unfolding misses
misses-excludes w d h h5 h11 e = ground (arith, h, h5, h11, e)

misses_table : holds_below (λ w. holds_below (misses w) 55) 17 ≡ true
unfolding holds_below misses
misses_table = refl

misses-all : (w d : ℕ) → w < 17 → d < 55 → misses w d ≡ true
misses-all w d hw hd =
    holds_below_lem (misses w) 55 d hd
      (holds_below_lem (λ v. holds_below (misses v) 55) 17 w hw misses_table)

sum_differs :
    (base w a b : ℕ)
    → w < 17
    → a < 55
    → b < a
    → (w % 5 == 0) ≡ false
    → (w % 11 == 0) ≡ false
    → (base + a * w) % 55 ≢ (base + b * w) % 55
sum_differs base w a b hw ha hb h5 h11 e =
    let d = a - b in
    let split : a * w ≡ d * w + b * w = ap (λ n. n * w) (omega arith) ∙ add-mul d b w in
    let multiple : d * w % 55 ≡ 0 = omega (arith, split, e) in
    let none_left = misses-excludes w d (misses-all w d hw (omega arith)) h5 h11 multiple in
    omega (arith, none_left)

-- The sums of two strings that differ in one character.
weights_changed :
    (before after : List ℕ) (c a : ℕ)
    → position c ≡ some a
    → weights 0 (before ++ c ∷ after)
      ≡ weights 0 before + weights (length before + 1) after + a * (length before + 1)
weights_changed before after c a e =
    let start : weights (0 + length before) (c ∷ after) ≡ weights (length before) (c ∷ after) =
      ap (λ k. weights k (c ∷ after)) (omega arith) in
    let here : weights (length before) (c ∷ after)
        ≡ a * (length before + 1) + weights (length before + 1) after =
      unfold weights index_or in rw e refl in
    omega (arith, weights-append 0 before (c ∷ after), start, here)

pub all_changed :
    (before after : List ℕ) (c c' : ℕ)
    → all in_charset (before ++ c ∷ after) ≡ true
    → in_charset c' ≡ true
    → (in_charset c ≡ true) × (all in_charset (before ++ c' ∷ after) ≡ true)
all_changed [] after c c' h h' = ground (arith, h, h')
all_changed (x ∷ xs) after c c' h h' = ground (arith, h, h', all_changed xs after c c')

pub all_refused :
    (before after : List ℕ) (c' : ℕ)
    → in_charset c' ≡ false
    → all in_charset (before ++ c' ∷ after) ≡ false
all_refused [] after c' h = ground (arith, h)
all_refused (x ∷ xs) after c' h = ground (arith, all_refused xs after c' h)

-- A wrong data character changes the checksum, at a weight that shares no factor with 55.
pub checksum_changed :
    (before after : List ℕ) (c c' : ℕ)
    → length before + 1 < 17
    → ((length before + 1) % 5 == 0) ≡ false
    → ((length before + 1) % 11 == 0) ≡ false
    → all in_charset (before ++ c ∷ after) ≡ true
    → in_charset c' ≡ true
    → c ≢ c'
    → compute_checksum (before ++ c ∷ after) ≢ compute_checksum (before ++ c' ∷ after)
checksum_changed before after c c' hw h5 h11 h h' ne e =
    let (hc, all') = all_changed before after c c' h h' in
    let (a, ea) = known c hc in
    let (b, eb) = known c' h' in
    let (ha, ca) = char_at-position c a ea in
    let (hb, cb) = char_at-position c' b eb in
    let base = weights 0 before + weights (length before + 1) after in
    let w = length before + 1 in
    let same : (base + a * w) % 55 ≡ (base + b * w) % 55 =
      sym (ap (λ n. n % 55) (weights_changed before after c a ea))
      ∙ char_at_injective _ _ (omega arith) (omega arith) (
          sym (compute_checksum-weights (before ++ c ∷ after) h)
          ∙ e
          ∙ compute_checksum-weights (before ++ c' ∷ after) all')
      ∙ ap (λ n. n % 55) (weights_changed before after c' b eb) in
    elim (Bool-cases (ltb b a)) [
      | inl k ↦ sum_differs base w a b hw ha (ltb→lt b a k) h5 h11 same
      | inr k ↦ elim (Bool-cases (ltb a b)) [
        | inl l ↦ sum_differs base w b a hw hb (ltb→lt a b l) h5 h11 (sym same)
        | inr l ↦ let equal : a ≡ b = ground (arith, k, l) in ne (sym ca ∙ ap char_at equal ∙ cb)
      ]
    ]
