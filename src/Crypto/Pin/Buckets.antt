-- ===== src/Crypto/Pin/Buckets.antt =====
-- How long a PIN and a rendezvous event are honored.
use ptransfer_cli.Common.{ℕ, ◌+◌, ◌*◌, ◌^◌, ◌<◌, ◌≡◌, true, leb, ◌&&◌, ltb, arith}
use ptransfer_cli.Crypto.Pin.{
  is_pin_bucket_active, is_rendezvous_fresh, pin_bucket, pin_rotation_ms, pin_ttl_ms,
}

-- On 64-bit clocks a PIN is honored from the start of the bucket it was minted in up to a time to
-- live later, and at no other time.
pub is_pin_bucket_active-window :
    (minted now : ℕ)
    → minted < 2 ^ 64
    → now < 2 ^ 64
    → let start = pin_bucket minted * pin_rotation_ms in
      is_pin_bucket_active (pin_bucket minted) now ≡ (leb start now && ltb now (start + pin_ttl_ms))
unfolding is_pin_bucket_active
is_pin_bucket_active-window minted now hm hn = ground arith

-- A rendezvous event that is fresh was stamped less than a time to live ago, and less than a
-- rotation ahead.
pub is_rendezvous_fresh_bounds :
    (created_at now : ℕ)
    → is_rendezvous_fresh created_at now ≡ true
    → (now < created_at * 1000 + pin_ttl_ms) × (created_at * 1000 < now + pin_rotation_ms)
unfolding is_rendezvous_fresh is_pin_bucket_active
is_rendezvous_fresh_bounds created_at now h = ground arith
