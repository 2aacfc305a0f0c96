-- ===== src/Transfer/Limits.antt =====
-- What `run_sender` of transfer.rs hands over at most.
use ptransfer_cli.Common.{
  ℕ, suc, ◌+◌, ◌-◌, ◌^◌, ◌≤◌, ◌<◌, ◌≡◌, refl, sym, subst, ◌%◌, ◌⊎◌, inl, inr, List, [], ◌∷◌, Option,
  none, some, length, length-append, ok, err, Result-cases, arith,
}
use ptransfer_cli.Common.Bytes.{be16}
use ptransfer_cli.Crypto.Aead.{Aead, Nonce, rng_failure, drawn}
use ptransfer_cli.Crypto.Chunk.{overhead_per_chunk, encrypt_chunk}
use ptransfer_cli.Transfer.{Message, text, binary, Error, max_chunks}
use ptransfer_cli.Transfer.SendStep.{send_chunks_step, send_chunks_stop}
use ptransfer_cli.Transfer.Sender.{Link, Run, after, seal_next, send_chunks}

-- The number of chunks among the messages, and the plaintext bytes in them.
abbrev pub chunk_count : List Message → ℕ
chunk_count [] = 0
chunk_count (text t ∷ ms) = chunk_count ms
chunk_count (binary b ∷ ms) = suc (chunk_count ms)

abbrev pub payload : List Message → ℕ
payload [] = 0
payload (text t ∷ ms) = payload ms
payload (binary b ∷ ms) = (length b - overhead_per_chunk) + payload ms

-- The random source fails, or fills the nonce.
abbrev pub IsFilled : Nonce → Type 0
IsFilled rng_failure = Unit
IsFilled (drawn n) = length n ≡ 12

length-encrypt_chunk :
    (aead : Aead) (key chunk enc : List ℕ) (i : ℕ) (nonce : Nonce)
    → IsFilled nonce
    → encrypt_chunk aead key chunk i nonce ≡ ok enc
    → length enc ≡ length chunk + overhead_per_chunk
unfolding encrypt_chunk
length-encrypt_chunk aead key chunk enc i rng_failure h e = cc
length-encrypt_chunk aead key chunk enc i (drawn n) h e =
    ground (
      arith,
      length-append n (aead.seal key n (be16 i) chunk),
      aead.length-seal key n (be16 i) chunk,
    )

-- The limits, for a run whose first chunk is the `i`-th with `sent` bytes before it.
abbrev pub IsLimited : ℕ → ℕ → ℕ → Run (ℕ × ℕ) → Type 0
IsLimited max_bytes i sent (ms, r) =
    (i + chunk_count ms ≤ max_chunks)
    × (sent + payload ms ≤ max_bytes)
    × ((r ≡ ok (i + chunk_count ms, sent + payload ms)) ⊎ ((e : Error) × (r ≡ err e)))

IsLimited-after :
    (max_bytes i sent total n : ℕ) (enc : List ℕ) (run : Run (ℕ × ℕ))
    → total ≡ sent + n
    → length enc ≡ n + overhead_per_chunk
    → IsLimited max_bytes (i + 1) total run
    → IsLimited max_bytes i sent (after (binary enc) run)
IsLimited-after max_bytes i sent total n enc (ms, r) eq len (a, b, inl e) =
    (omega arith, omega arith, inl (ground arith))
IsLimited-after max_bytes i sent total n enc (ms, r) eq len (a, b, inr e) =
    (omega arith, omega arith, inr e)

module _ (aead : Aead) (key : List ℕ) (max_bytes : ℕ) (link : Link)
    (fills : (i : ℕ) → IsFilled (link.nonce i)) where
  seal_next-facts :
      (chunk enc : List ℕ) (i sent total : ℕ)
      → seal_next aead key max_bytes link chunk i sent ≡ ok (enc, total)
      → (i < max_chunks)
        × (total ≡ sent + length chunk)
        × (total ≤ max_bytes)
        × (length enc ≡ length chunk + overhead_per_chunk)
  unfolding seal_next
  seal_next-facts chunk enc i sent total h =
      ground (arith, length-encrypt_chunk aead key chunk enc (i % 2 ^ 16) (link.nonce i) (fills i))

  -- Whatever the source yields and however the run ends, no more than 65536 chunks are handed over,
  -- and no more plaintext than the limit of the transport; where the source was read to its end,
  -- the counts that the trailer states are those of the chunks.
  pub send_chunks_limits :
      (source : List (Option (List ℕ))) (i sent : ℕ)
      → i ≤ max_chunks
      → sent ≤ max_bytes
      → IsLimited max_bytes i sent (send_chunks aead key max_bytes link source i sent)
  send_chunks_limits [] i sent h k =
      unfold send_chunks in (omega arith, omega arith, inl (ground arith))
  send_chunks_limits (none ∷ source) i sent h k =
      unfold send_chunks in (omega arith, omega arith, inr (Error.source_failed, refl))
  send_chunks_limits (some c ∷ source) i sent h k =
      elim (Result-cases (seal_next aead key max_bytes link c i sent)) [
        | inl ((enc, total), e) ↦
            let (lt, eq, le, len) = seal_next-facts c enc i sent total e in
            subst (IsLimited max_bytes i sent)
              (sym (send_chunks_step aead key max_bytes link source c i sent e))
              (IsLimited-after max_bytes i sent total (length c) enc
                (send_chunks aead key max_bytes link source (i + 1) total) eq len
                (send_chunks_limits source (i + 1) total (omega arith) le))
        | inr (e, h₁) ↦
            subst (IsLimited max_bytes i sent)
              (sym (send_chunks_stop aead key max_bytes link source c i sent h₁))
              (omega arith, omega arith, inr (e, refl))
      ]
