-- ===== src/Code/Payload/Obfuscated.antt =====
-- The keystream of payload.rs undoes itself, and a prefix needs only its prefix.
use Prim.Native.Nat.{bit_xor}
use ptransfer_cli.Common.{
  ℕ, zero, suc, ◌%◌, ◌<◌, ◌≡◌, refl, ap, ap₂, List, [], ◌∷◌, Bool, true, length, take, All, ◌==◌,
  ==_iff, holds_below, holds_below_lem, arith,
}
use ptransfer_cli.Common.Bytes.{IsByte}
use ptransfer_cli.Code.Payload.Container.{xorshift32, xor_obfuscate}

is_undone : ℕ → ℕ → Bool
is_undone k x = bit_xor (bit_xor x k) k == x

is_undone_row : ℕ → Bool
unfolding is_undone
is_undone_row k = holds_below (is_undone k) 256

-- By evaluation, on every byte under every byte.
all_undone : holds_below is_undone_row 256 ≡ true
unfolding holds_below is_undone_row is_undone
all_undone = refl

xor_twice : (x k : ℕ) → x < 256 → k < 256 → bit_xor (bit_xor x k) k ≡ x
unfolding is_undone is_undone_row
xor_twice x k hx hk =
    (==_iff (bit_xor (bit_xor x k) k) x).0
      (holds_below_lem (is_undone k) 256 x hx (holds_below_lem is_undone_row 256 k hk all_undone))

pub xor_obfuscate_involutive :
    (bytes : List ℕ) (seed : ℕ)
    → All IsByte bytes
    → xor_obfuscate (xor_obfuscate bytes seed) seed ≡ bytes
unfolding xor_obfuscate
xor_obfuscate_involutive [] seed h = refl
xor_obfuscate_involutive (b ∷ bs) seed h =
    ap₂ (λ x xs. x ∷ xs) (xor_twice b (xorshift32 seed % 256) h.0 (omega arith))
      (xor_obfuscate_involutive bs (xorshift32 seed) h.1)

pub xor_obfuscate-take :
    (n : ℕ) (bytes : List ℕ) (seed : ℕ)
    → xor_obfuscate (take n bytes) seed ≡ take n (xor_obfuscate bytes seed)
unfolding xor_obfuscate
xor_obfuscate-take zero bytes seed = refl
xor_obfuscate-take (suc n) [] seed = refl
xor_obfuscate-take (suc n) (b ∷ bs) seed =
    ap (λ t. bit_xor b (xorshift32 seed % 256) ∷ t) (xor_obfuscate-take n bs (xorshift32 seed))

pub length-xor_obfuscate :
    (bytes : List ℕ) (seed : ℕ) → length (xor_obfuscate bytes seed) ≡ length bytes
unfolding xor_obfuscate
length-xor_obfuscate [] seed = refl
length-xor_obfuscate (b ∷ bs) seed = ap suc (length-xor_obfuscate bs (xorshift32 seed))
