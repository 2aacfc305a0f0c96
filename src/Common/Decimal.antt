-- ===== src/Common/Decimal.antt =====
-- Unsigned 64-bit numbers in decimal: `{}` of `format!`, and `str::parse::<u64>`.
use Prim.Native.Nat.{ℕ, zero, suc, ◌+◌, ◌-◌, ◌*◌, ◌/◌, ◌%◌, ◌^◌, ◌<◌}
use mathlib.Core.Path.{◌≡◌, refl, sym, ap, ◌∙◌}
use mathlib.Core.List.{List, [], ◌∷◌, ◌++◌, append-nil, append_assoc}
use mathlib.Core.Logic.{inl, inr}
use mathlib.Core.Option.{Option, none, some}
use mathlib.Core.Bool.{Bool, true, false, ◌&&◌}
use native.Mathlib.Omega.{arith}
use ptransfer_cli.Common.Tests.{ltb, leb, if◌then◌else◌, some_injective, ltb→lt, lt→ltb, Bool-cases}
use ptransfer_cli.Common.Lists.{all, all-append}

-- `u8::is_ascii_digit`
abbrev pub is_digit : ℕ → Bool
is_digit c = leb b'0' c && leb c b'9'

append-cons {ℓ} :
    {A : Type ℓ} (xs : List A) (y : A) → (z : A) × (zs : List A) × (xs ++ y ∷ [] ≡ z ∷ zs)
append-cons [] y = (y, [], refl)
append-cons (x ∷ xs) y = (x, xs ++ y ∷ [], refl)

decimal_loop : ℕ → ℕ → List ℕ
decimal_loop zero n = []
decimal_loop (suc fuel) n =
    let rest = decimal_loop fuel (n / 10) in
    if ltb n 10 then (b'0' + n) ∷ [] else rest ++ (b'0' + n % 10) ∷ []

-- A `u64` has at most 20 digits.
unfoldable pub decimal : ℕ → List ℕ
unfolding decimal_loop
decimal n = decimal_loop 20 n

-- The digits after the value read so far; `none` where the number leaves `u64`.
parse_loop : ℕ → List ℕ → Option ℕ
parse_loop acc [] = some acc
parse_loop acc (c ∷ cs) =
    let next = acc * 10 + (c - b'0') in
    if is_digit c then (if ltb next (2 ^ 64) then parse_loop next cs else none) else none

unfoldable pub parse_u64 : List ℕ → Option ℕ
unfolding parse_loop
parse_u64 [] = none
parse_u64 (c ∷ cs) = parse_loop 0 (c ∷ cs)

parse_digit :
    (acc d : ℕ) (rest : List ℕ)
    → d < 10
    → acc * 10 + d < 2 ^ 64
    → parse_loop acc ((b'0' + d) ∷ rest) ≡ parse_loop (acc * 10 + d) rest
unfolding parse_loop
parse_digit acc d rest h k =
    let same : acc * 10 + (b'0' + d - b'0') ≡ acc * 10 + d = omega arith in
    ground (arith, same, ap (λ t. parse_loop t rest) same)

decimal_step :
    (fuel n : ℕ) (rest : List ℕ)
    → ltb n 10 ≡ false
    → parse_loop 0 (decimal_loop (suc fuel) n ++ rest)
      ≡ parse_loop 0 (decimal_loop fuel (n / 10) ++ ((b'0' + n % 10) ∷ rest))
decimal_step fuel n rest e =
    unfold decimal_loop in
    rw (e, append_assoc (decimal_loop fuel (n / 10)) ((b'0' + n % 10) ∷ []) rest)

parse_first :
    (n : ℕ) (rest : List ℕ) → n < 10 → parse_loop 0 ((b'0' + n) ∷ rest) ≡ parse_loop n rest
parse_first n rest h =
    parse_digit 0 n rest h (omega arith) ∙ ap (λ t. parse_loop t rest) (omega arith)

parse_loop-decimal_loop :
    (fuel n : ℕ) (rest : List ℕ)
    → n < 10 ^ suc fuel
    → n < 2 ^ 64
    → parse_loop 0 (decimal_loop (suc fuel) n ++ rest) ≡ parse_loop n rest
parse_loop-decimal_loop zero n rest h k =
    unfold decimal_loop in rw (lt→ltb n 10 (omega arith)) (parse_first n rest (omega arith))
parse_loop-decimal_loop (suc fuel) n rest h k = elim (Bool-cases (ltb n 10)) [
  | inl e ↦ unfold decimal_loop in rw e (parse_first n rest (ltb→lt n 10 e))
  | inr e ↦
      decimal_step (suc fuel) n rest e
      ∙ parse_loop-decimal_loop fuel (n / 10) _ (omega arith) (omega arith)
      ∙ parse_digit (n / 10) (n % 10) rest (omega arith) (omega arith)
      ∙ ap (λ t. parse_loop t rest) (omega arith)
]

decimal_loop-digits : (fuel n : ℕ) → all is_digit (decimal_loop fuel n) ≡ true
unfolding decimal_loop
decimal_loop-digits zero n = refl
decimal_loop-digits (suc fuel) n =
    let last : is_digit (b'0' + n % 10) ≡ true = ground arith in
    ground (
      arith,
      last,
      all-append is_digit (decimal_loop fuel (n / 10)) ((b'0' + n % 10) ∷ []),
      decimal_loop-digits fuel (n / 10),
    )

pub decimal-digits : (n : ℕ) → all is_digit (decimal n) ≡ true
unfolding decimal
decimal-digits n = decimal_loop-digits 20 n

decimal_loop-cons : (fuel n : ℕ) → (c : ℕ) × (cs : List ℕ) × (decimal_loop (suc fuel) n ≡ c ∷ cs)
unfolding decimal_loop
decimal_loop-cons fuel n = elim (Bool-cases (ltb n 10)) [
  | inl e ↦ (b'0' + n, [], rw e)
  | inr e ↦ rw e (append-cons (decimal_loop fuel (n / 10)) (b'0' + n % 10))
]

-- A printed number is not empty.
pub decimal-cons : (n : ℕ) → (c : ℕ) × (cs : List ℕ) × (decimal n ≡ c ∷ cs)
unfolding decimal
decimal-cons n = decimal_loop-cons 19 n

parse_u64-loop :
    (n c : ℕ) (cs : List ℕ) → decimal n ≡ c ∷ cs → parse_u64 (decimal n) ≡ parse_loop 0 (decimal n)
unfolding parse_u64
parse_u64-loop n c cs e = rw e

parse_loop-decimal : (n : ℕ) → n < 2 ^ 64 → parse_loop 0 (decimal n ++ []) ≡ some n
unfolding decimal parse_loop
parse_loop-decimal n h = parse_loop-decimal_loop 19 n [] (omega arith) h

-- What is printed reads back.
pub parse_u64-decimal : (n : ℕ) → n < 2 ^ 64 → parse_u64 (decimal n) ≡ some n
parse_u64-decimal n h =
    let (c, cs, e) = decimal-cons n in
    parse_u64-loop n c cs e
    ∙ ap (parse_loop 0) (sym (append-nil (decimal n)))
    ∙ parse_loop-decimal n h

pub decimal_injective : (m n : ℕ) → m < 2 ^ 64 → n < 2 ^ 64 → decimal m ≡ decimal n → m ≡ n
decimal_injective m n hm hn e =
    some_injective (sym (parse_u64-decimal m hm) ∙ ap parse_u64 e ∙ parse_u64-decimal n hn)
