-- ===== src/Transfer/Done.antt =====
-- The `DONE` trailer of transfer.rs reads back.
use ptransfer_cli.Common.{ℕ, is_empty, ◌^◌, ◌≤◌, ◌<◌, ◌≡◌, ◌∷◌, ◌++◌, false, le→leb, ok, arith}
use ptransfer_cli.Common.Decimal.{decimal, decimal-cons, decimal-digits, parse_u64-decimal}
use ptransfer_cli.Common.Text.{no_colon, strip_prefix-append, split_once-append}
use ptransfer_cli.Transfer.{done_prefix, done_text, parse_done, max_chunks}

is_empty-decimal : (n : ℕ) → is_empty (decimal n) ≡ false
is_empty-decimal n = let (c, cs, e) = decimal-cons n in rw e

-- The trailer that a sender writes for counts within the limits is read as those counts.
pub parse_done-done_text :
    (chunks bytes max_bytes : ℕ)
    → chunks ≤ max_chunks
    → bytes ≤ max_bytes
    → bytes < 2 ^ 64
    → parse_done (done_text chunks bytes) max_bytes ≡ ok (chunks, bytes)
unfolding parse_done done_text
parse_done-done_text chunks bytes max_bytes hc hb h64 =
    rw (strip_prefix-append done_prefix (decimal chunks ++ b':' ∷ decimal bytes)) (
      rw
        (split_once-append b':' (decimal chunks) (decimal bytes)
          (no_colon (decimal chunks) (decimal-digits chunks)))
        (rw (
          is_empty-decimal chunks,
          is_empty-decimal bytes,
          decimal-digits chunks,
          decimal-digits bytes,
          parse_u64-decimal chunks (omega arith),
          parse_u64-decimal bytes h64,
          le→leb chunks max_chunks hc,
          le→leb bytes max_bytes hb,
        )))
