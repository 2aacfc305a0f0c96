-- ===== src/Crypto/Pin/Runs.antt =====
-- The vectors of the tests of pin.rs, and the theorems on them.
use ptransfer_cli.Common.{
  ℕ, ◌≡◌, refl, map, List, [], ◌∷◌, none, some, true, replicate, ok, err, arith,
}
use ptransfer_cli.Common.Bytes.{codes}
use ptransfer_cli.Crypto.Pin.{
  standard, rng_failed, classify_pin, check_pin, compute_checksum, weighted_sum, position,
  position_from, generate_pin, draw_all, draw_from, is_pin_bucket_active, is_rendezvous_fresh,
}
use ptransfer_cli.Crypto.Pin.Typos.{classify_pin-mistyped}
use ptransfer_cli.Crypto.Pin.Generate.{classify_pin-generate_pin}

vectors :
    (classify_pin (codes "ABCDEFGHJKLA") ≡ some standard)
    × (classify_pin (codes "AbCDefGhjkmQ") ≡ some standard)
    × (classify_pin (codes "ABCDefGHJKLA") ≡ none)
    × (classify_pin (codes "BACDEFGHJKLA") ≡ none)
    × (classify_pin (codes "ABCDEFGHJKL") ≡ none)
unfolding classify_pin check_pin compute_checksum weighted_sum position position_from
vectors = (refl, refl, refl, refl, refl)

-- The fifth character has the weight 5, and one that is 11 places on in the alphabet passes for it.
undetected : classify_pin (codes "ABCDRFGHJKLA") ≡ some standard
unfolding classify_pin check_pin compute_checksum weighted_sum position position_from
undetected = refl

fails : generate_pin standard (some (replicate 22 255) ∷ none ∷ []) ≡ err rng_failed
unfolding generate_pin draw_all draw_from
fails = refl

vector_ok : classify_pin (codes "ABCDEFGHJKLA") ≡ some standard
unfolding classify_pin check_pin compute_checksum weighted_sum position position_from
vector_ok = refl

classify_pin-mistyped_example : classify_pin (codes "ABXDEFGHJKLA") ≡ none
classify_pin-mistyped_example =
    classify_pin-mistyped (codes "AB") (codes "DEFGHJKLA") b'C' b'X' standard vector_ok
      (omega arith) refl refl

classify_pin-generate_pin_example :
    (pin : List ℕ) × (generate_pin standard (map some (replicate 22 7 ∷ [])) ≡ ok pin)
    × (classify_pin pin ≡ some standard)
classify_pin-generate_pin_example =
    classify_pin-generate_pin standard (replicate 22 7 ∷ []) (omega arith)

fresh : is_rendezvous_fresh 250 300_000 ≡ true
unfolding is_rendezvous_fresh is_pin_bucket_active
fresh = refl
