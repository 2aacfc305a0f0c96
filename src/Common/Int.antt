-- ===== src/Common/Int.antt =====
-- Signed integers over the native numbers, and Rust's `i64` arithmetic on them.
use Prim.Native.Nat.{ℕ, ◌+◌, ◌-◌, ◌%◌, ◌^◌, min}
use mathlib.Core.Bool.{Bool, false}
use ptransfer_cli.Common.Tests.{leb, ltb, if◌then◌else◌}

pub data ℤ : Type 0 where
  pos negsuc : ℕ → ℤ

-- The difference of two natural numbers.
abbrev pub minus : ℕ → ℕ → ℤ
minus a b = if leb b a then pos (a - b) else negsuc (b - a - 1)

infixl 20 ◌-ℤ◌
abbrev pub ◌-ℤ◌ : ℤ → ℤ → ℤ
pos a -ℤ pos b = minus a b
pos a -ℤ negsuc b = pos (a + b + 1)
negsuc a -ℤ pos b = negsuc (a + b)
negsuc a -ℤ negsuc b = minus b a

-- The nearest `i64`, and `i64::saturating_sub`.
abbrev pub clamp64 : ℤ → ℤ
clamp64 (pos n) = pos (min n (2 ^ 63 - 1))
clamp64 (negsuc n) = negsuc (min n (2 ^ 63 - 1))

abbrev pub saturating_sub : ℤ → ℤ → ℤ
saturating_sub a b = clamp64 (a -ℤ b)

-- `z > n` for a number n that is not negative.
abbrev pub exceeds : ℤ → ℕ → Bool
exceeds (pos m) n = ltb n m
exceeds (negsuc m) n = false

-- `z as i32 as u32`
abbrev pub low32 : ℤ → ℕ
low32 (pos n) = n % 2 ^ 32
low32 (negsuc n) = 2 ^ 32 - 1 - n % 2 ^ 32
