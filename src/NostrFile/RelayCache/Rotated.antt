-- ===== src/NostrFile/RelayCache/Rotated.antt =====
-- `take_ring` of relay_cache.rs goes round: what one upload leaves off the next takes up.
use ptransfer_cli.Common.{
  ℕ, zero, suc, ◌+◌, ◌%◌, ◌≤◌, min, ◌≡◌, refl, sym, ap, ap₂, ◌∙◌, List, [], ◌∷◌, ◌++◌, some, length,
  get_or, arith,
}
use native.Mathlib.Nat.{mod-add-mod, mod-mod}
use ptransfer_cli.NostrFile.RelayCache.{Cache}
use ptransfer_cli.NostrFile.RelayCache.Ring.{state_or_new, around, take_ring}

next_mod : (p q n : ℕ) → p % n ≡ q % n → (p + 1) % n ≡ (q + 1) % n
next_mod p q n h = sym (mod-add-mod p n 1) ∙ ap (λ r. (r + 1) % n) h ∙ mod-add-mod q n 1

-- Only the place in the ring counts.
around-mod :
    (healthy : List (List ℕ)) (p q count : ℕ)
    → p % length healthy ≡ q % length healthy
    → around healthy p count ≡ around healthy q count
around-mod healthy p q zero h = refl
around-mod healthy p q (suc count) h =
    ap₂ (λ i rest. get_or healthy i [] ∷ rest) h
      (around-mod healthy (p + 1) (q + 1) count (next_mod p q (length healthy) h))

around-append :
    (healthy : List (List ℕ)) (p a b : ℕ)
    → around healthy p (a + b) ≡ around healthy p a ++ around healthy (p + a) b
around-append healthy p zero b =
    let none_left : 0 + b ≡ b = omega arith in
    let same : p ≡ p + 0 = omega arith in
    ap (around healthy p) none_left ∙ ap (λ q. around healthy q b) same
around-append healthy p (suc a) b =
    let one_more : suc a + b ≡ suc (a + b) = omega arith in
    let moved : p + 1 + a ≡ p + suc a = omega arith in
    ap (around healthy p) one_more
    ∙ ap (λ rest. get_or healthy (p % length healthy) [] ∷ rest)
        (around-append healthy (p + 1) a b
          ∙ ap (λ q. around healthy (p + 1) a ++ around healthy q b) moved)

length-around : (healthy : List (List ℕ)) (p count : ℕ) → length (around healthy p count) ≡ count
length-around healthy p zero = refl
length-around healthy p (suc count) = ap suc (length-around healthy (p + 1) count)

taken :
    (cache : Cache) (url : List ℕ) (urls : List (List ℕ)) (count : ℕ)
    → count ≤ length (url ∷ urls)
    → take_ring cache (url ∷ urls) count ≡ (
      record cache {
        state = some (record (state_or_new cache.state) {
          cursor = ((state_or_new cache.state).cursor + count) % length (url ∷ urls);
        });
      },
      around (url ∷ urls) (state_or_new cache.state).cursor count,
    )
unfolding take_ring
taken cache url urls count small =
    let n = length (url ∷ urls) in
    let c = (state_or_new cache.state).cursor in
    let all_of : min count n ≡ count = omega (arith, small) in
    let selected = ap (around (url ∷ urls) (c % n)) all_of in
    let place =
      ap (λ l. (c % n + length l) % n) selected
      ∙ ap (λ l. (c % n + l) % n) (length-around (url ∷ urls) (c % n) count)
      ∙ mod-add-mod c n count in
    ap₂
      (λ cur sel.
        (record cache { state = some (record (state_or_new cache.state) { cursor = cur }) }, sel))
      place (selected ∙ around-mod (url ∷ urls) (c % n) c count (mod-mod c n))

add_twice : (c a b : ℕ) → c + a + b ≡ c + (a + b)
add_twice c a b = omega arith

-- Over one list of healthy relays, two uploads that take no more relays together than there are get those
-- that one upload of both sizes gets, and leave the cache as it leaves it.
pub take_ring-take_ring :
    (cache : Cache) (url : List ℕ) (urls : List (List ℕ)) (a b : ℕ)
    → a + b ≤ length (url ∷ urls)
    → ((take_ring cache (url ∷ urls) a).1
          ++ (take_ring (take_ring cache (url ∷ urls) a).0 (url ∷ urls) b).1
        ≡ (take_ring cache (url ∷ urls) (a + b)).1)
      × ((take_ring (take_ring cache (url ∷ urls) a).0 (url ∷ urls) b).0
          ≡ (take_ring cache (url ∷ urls) (a + b)).0)
take_ring-take_ring cache url urls a b small =
    let n = length (url ∷ urls) in
    let c = (state_or_new cache.state).cursor in
    let first = taken cache url urls a (omega (arith, small)) in
    let next : Cache = record cache {
      state = some (record (state_or_new cache.state) { cursor = (c + a) % n });
    } in
    let second = taken next url urls b (omega (arith, small)) in
    let both = taken cache url urls (a + b) small in
    let further = ap (λ q. (take_ring q.0 (url ∷ urls) b)) first ∙ second in
    let place : ((c + a) % n + b) % n ≡ (c + (a + b)) % n =
      mod-add-mod (c + a) n b ∙ ap (λ m. m % n) (add_twice c a b) in
    (
      ap₂ (λ x y. x ++ y) (ap (λ q. q.1) first)
            (ap (λ q. q.1) further
              ∙ around-mod (url ∷ urls) ((c + a) % n) (c + a) b (mod-mod (c + a) n))
          ∙ sym (around-append (url ∷ urls) c a b)
          ∙ sym (ap (λ q. q.1) both),
      ap (λ q. q.0) further
          ∙ ap
              (λ m. record cache {
                state = some (record (state_or_new cache.state) { cursor = m });
              })
              place
          ∙ sym (ap (λ q. q.0) both),
    )
