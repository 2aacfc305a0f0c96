-- ===== src/NostrFile/Manifest/Valid.antt =====
-- What a manifest that passes `validate` promises, from which the receiver sizes its state.
use ptransfer_cli.Common.{
  ℕ, ◌+◌, ◌*◌, ◌%◌, ◌^◌, ◌≤◌, ◌<◌, ◌≡◌, sym, subst, zero, suc, Bool-cases, inl, inr, ◌==◌, ok,
  arith,
}
use native.Mathlib.Nat.{mul-le-mul_left}
use ptransfer_cli.NostrFile.{relay_max_bytes, div_ceil}
use ptransfer_cli.NostrFile.Codec.{PayloadCompression, plain, deflate}
use ptransfer_cli.NostrFile.Manifest.{NostrFileManifest, validate, bound}

validate-parts :
    (m : NostrFileManifest)
    → validate m ≡ ok tt
    → (1 ≤ m.file_size)
      × (m.file_size ≤ relay_max_bytes)
      × (1 ≤ m.payload_size)
      × (m.payload_size ≤ bound m.compression m.file_size)
      × (1024 ≤ m.chunk_size)
      × (m.chunk_size ≤ 65_408)
      × (m.total_chunks ≡ div_ceil m.payload_size m.chunk_size)
      × (m.expires_at ≡ m.created_at + 3600)
      × (m.expires_at < 2 ^ 64)
unfolding validate
validate-parts m h = ground arith

div_ceil-covers : (p c : ℕ) → 1 ≤ c → (p ≤ div_ceil p c * c) × (div_ceil p c * c < p + c)
div_ceil-covers p c h = grind arith

bound-le :
    (c : PayloadCompression) (file_size : ℕ)
    → file_size ≤ relay_max_bytes
    → bound c file_size ≤ 104_865_669
bound-le plain file_size h = omega arith
bound-le deflate file_size h = elim (Bool-cases (file_size % 65_535 == 0)) [
  | inl e ↦ rw e (omega arith)
  | inr e ↦ rw e (omega arith)
]

-- As many pieces of at least 1024 bytes as start inside a payload.
pieces-le : (t c p : ℕ) → 1024 ≤ c → t * c < p + c → p ≤ 104_865_669 → t ≤ 102_408
pieces-le zero c p hc h hp = omega arith
pieces-le (suc t) c p hc h hp =
    let inside : t * c < p = omega arith in
    let scaled : t * 1024 ≤ t * c = mul-le-mul_left t hc in omega arith

-- A manifest that passes `validate` describes a file of 1 byte to 100 MiB. Its pieces cover the
-- payload, the last of them is not empty, and there are at most 102408 of them, of at most 65408
-- bytes. Its window is an hour that ends within 64 bits.
pub validate_bounds :
    (m : NostrFileManifest)
    → validate m ≡ ok tt
    → (1 ≤ m.file_size)
      × (m.file_size ≤ 100 * 1024 * 1024)
      × (m.payload_size ≤ m.total_chunks * m.chunk_size)
      × (m.total_chunks * m.chunk_size < m.payload_size + m.chunk_size)
      × (m.total_chunks ≤ 102_408)
      × (m.chunk_size ≤ 65_408)
      × (m.expires_at ≡ m.created_at + 3600)
      × (m.expires_at < 2 ^ 64)
validate_bounds m h =
    let (low, high, some_payload, payload_fits, c_low, c_high, count, window, no_wrap) =
      validate-parts m h in
    let (covers, tight) = div_ceil-covers m.payload_size m.chunk_size (omega arith) in
    let payload_max : m.payload_size ≤ 104_865_669 =
      omega (arith, bound-le m.compression m.file_size high) in
    let covers' = subst (λ t. m.payload_size ≤ t * m.chunk_size) (sym count) covers in
    let tight' = subst (λ t. t * m.chunk_size < m.payload_size + m.chunk_size) (sym count) tight in
    (
      low,
      high,
      covers',
      tight',
      pieces-le m.total_chunks m.chunk_size m.payload_size c_low tight' payload_max,
      c_high,
      window,
      no_wrap,
    )
