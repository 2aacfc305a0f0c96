-- ===== src/Crypto/Spake2/Toy.antt =====
-- A group that meets the assumptions on P-256: the natural numbers under addition, a scalar standing for
-- its successor, a point written as itself before 32 zero bytes.
use ptransfer_cli.Common.{
  ℕ, zero, suc, ◌+◌, ◌-◌, ◌*◌, ◌≤◌, ◌≡◌, refl, List, [], ◌∷◌, Option, none, some, false, ◌==◌,
  length, replicate, arith,
}
use ptransfer_cli.Crypto.Spake2.{Curve}

abbrev pub point_bytes : ℕ → List ℕ
point_bytes zero = 0 ∷ []
point_bytes (suc p) = suc p ∷ replicate 32 0

abbrev pub first_byte : List ℕ → Option ℕ
first_byte [] = none
first_byte (b ∷ bs) = some b

pub times_comm : (p s t : ℕ) → p * suc s * suc t ≡ p * suc t * suc s
times_comm p s t = grind arith

pub times_generator : (s : ℕ) → (1 * suc s == 0) ≡ false
times_generator s = ground arith

pub times_point : (p s : ℕ) → (p == 0) ≡ false → (p * suc s == 0) ≡ false
times_point zero s h = cc
times_point (suc p) s h =
    let some_left : 1 ≤ suc p * suc s = grind arith in ground (arith, some_left)

pub length-point_bytes : (p : ℕ) → (p == 0) ≡ false → length (point_bytes p) ≡ 33
length-point_bytes zero h = cc
length-point_bytes (suc p) h = refl

pub first_byte-point_bytes :
    (p : ℕ) → length (point_bytes p) ≡ 33 → first_byte (point_bytes p) ≡ some p
first_byte-point_bytes zero h = absurd (omega (arith, h))
first_byte-point_bytes (suc p) h = refl

abbrev pub toy_curve : Curve
toy_curve = record {
  Point = ℕ;
  Scalar = ℕ;
  generator = 1;
  add = λ p q. p + q;
  sub = λ p q. p - q;
  mul = λ p s. p * suc s;
  is_identity = λ p. p == 0;
  to_sec1 = point_bytes;
  from_sec1 = first_byte;
  to_scalar = first_byte;
  sub-add = λ p q. omega arith;
  mul-mul = times_comm;
  mul-generator = times_generator;
  mul-point = times_point;
  length-to_sec1 = length-point_bytes;
  from_sec1-to_sec1 = first_byte-point_bytes;
}
