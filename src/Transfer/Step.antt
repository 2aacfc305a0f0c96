-- ===== src/Transfer/Step.antt =====
-- One message of the receiver of transfer.rs, taken apart: what it has checked when it goes on.
use ptransfer_cli.Common.{
  ℕ, ◌+◌, ◌≤◌, ◌<◌, ◌≡◌, sym, ap, ◌∙◌, List, false, some, length, Result, ok, err, with_err, >>=-ok,
  arith,
}
use ptransfer_cli.Crypto.Aead.{Aead}
use ptransfer_cli.Crypto.Chunk.{encryption_chunk_size, parse_chunk_message, decrypt_chunk}
use ptransfer_cli.Wire.Flate.{Decoder}
use ptransfer_cli.Transfer.{Error, parse_done}
use ptransfer_cli.Transfer.Receiver.{
  Disk, Receiving, is_short, check_chunk, open_chunk, receive_chunk, receive_done, write_plain,
  write_rest,
}

pub with_err-eq-ok {ℓ} :
    {E F : Type 0} {A : Type ℓ} (r : Result E A) (f : F) {a : A} → with_err r f ≡ ok a → r ≡ ok a
with_err-eq-ok (ok b) f h = ground (arith, h)
with_err-eq-ok (err e) f h = cc

module _ (d : Decoder) (disk : Disk) (aead : Aead) (key : List ℕ) (max_bytes : ℕ) where
  -- The message `b` is a chunk at the index that `s` waits for, and opens under that index as
  -- `plain`; `s'` counts it.
  pub record Takes (s : Receiving d) (b : List ℕ) (s' : Receiving d) : Type 0 where
    pub encrypted : List ℕ
    pub plain : List ℕ
    pub parses : parse_chunk_message b ≡ ok (s.received_count, encrypted)
    pub opens : decrypt_chunk aead key encrypted s.received_count ≡ ok plain
    pub not_empty : 0 < length plain
    pub not_long : length plain ≤ encryption_chunk_size
    pub in_place : is_short s.previous_chunk_len ≡ false
    pub counted : s'.received_count ≡ s.received_count + 1
    pub totalled : s'.received_bytes ≡ s.received_bytes + length plain
    pub within : s'.received_bytes ≤ max_bytes
    pub last_len : s'.previous_chunk_len ≡ some (length plain)
    pub writes : write_plain d disk s.inflater s.written plain ≡ ok (s'.inflater, s'.written)

  check_chunk-facts :
      (s : Receiving d) (b encrypted : List ℕ) (index expect_plain : ℕ)
      → check_chunk d disk aead key max_bytes s b ≡ ok (index, encrypted, expect_plain)
      → (parse_chunk_message b ≡ ok (index, encrypted))
        × (index ≡ s.received_count)
        × (is_short s.previous_chunk_len ≡ false)
        × (0 < expect_plain)
        × (expect_plain ≤ encryption_chunk_size)
        × (s.received_bytes + expect_plain ≤ max_bytes)
  unfolding check_chunk
  check_chunk-facts s b encrypted index expect_plain h = ground arith

  open_chunk-facts :
      (s s' : Receiving d) (index n : ℕ) (encrypted : List ℕ)
      → open_chunk d disk aead key max_bytes s (index, encrypted, n) ≡ ok s'
      → (plain : List ℕ) × (decrypt_chunk aead key encrypted index ≡ ok plain)
        × (length plain ≡ n)
        × (s'.received_count ≡ s.received_count + 1)
        × (s'.received_bytes ≡ s.received_bytes + n)
        × (s'.previous_chunk_len ≡ some n)
        × (write_plain d disk s.inflater s.written plain ≡ ok (s'.inflater, s'.written))
  unfolding open_chunk
  open_chunk-facts s s' index n encrypted h =
      let (plain, e, h₁) =
        >>=-ok (with_err (decrypt_chunk aead key encrypted index) Error.open_failed) _ h in
      let same : length plain ≡ n = ground (arith, h₁) in
      (
        plain,
        with_err-eq-ok (decrypt_chunk aead key encrypted index) Error.open_failed e,
        ground (arith, h₁),
        ground (arith, h₁),
        ground (arith, h₁),
        ground (arith, h₁),
        ground (arith, h₁),
      )

  pub receive_chunk-Takes :
      (s : Receiving d) (b : List ℕ) (s' : Receiving d)
      → receive_chunk d disk aead key max_bytes s b ≡ ok s'
      → Takes s b s'
  unfolding receive_chunk
  receive_chunk-Takes s b s' h =
      let ((index, encrypted, n), e, h₁) =
        >>=-ok (check_chunk d disk aead key max_bytes s b) (open_chunk d disk aead key max_bytes s)
          h in
      let (parses, here, in_place, pos, fits, within) = check_chunk-facts s b encrypted index n e in
      let (plain, opens, len, counted, totalled, last, writes) =
        open_chunk-facts s s' index n encrypted h₁ in
      record {
        encrypted = encrypted;
        plain = plain;
        parses = parses ∙ ap (λ i. ok (i, encrypted)) here;
        opens = rw (← here) opens;
        not_empty = omega arith;
        not_long = omega arith;
        in_place = in_place;
        counted = counted;
        totalled = omega arith;
        within = omega arith;
        last_len = last ∙ ap some (sym len);
        writes = writes;
      }

  pub receive_done-facts :
      (s t : Receiving d) (msg : List ℕ) (c b : ℕ)
      → receive_done d disk aead key max_bytes s msg ≡ ok (t, c, b)
      → (parse_done msg max_bytes ≡ ok (s.received_count, s.received_bytes))
        × (t.received_count ≡ s.received_count)
        × (t.received_bytes ≡ s.received_bytes)
        × (write_rest d disk s.inflater s.written ≡ ok (t.inflater, t.written))
        × (c ≡ s.received_count)
        × (b ≡ s.received_bytes)
  unfolding receive_done
  receive_done-facts s t msg c b h = ground arith
