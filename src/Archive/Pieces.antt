-- ===== src/Archive/Pieces.antt =====
-- `ChunkWriter` of archive.rs: whatever the writes, the transfer gets the bytes in pieces of 128 KiB.
use ptransfer_cli.Common.{
  ℕ, zero, suc, ◌-◌, ◌≤◌, ◌≡◌, refl, sym, ap, ap₂, ◌∙◌, min, List, [], ◌∷◌, ◌++◌, append-nil,
  append_assoc, Bool, true, ◌==◌, if◌then◌else◌, length, length-append, length-take, length-drop,
  take, drop, take-append-drop, is_empty, concat, chunks, chunks_step, chunks_nil, chunks_single,
  arith, All, All-append, drop-append, take-append, Result, ok, err, ◌>>=◌, inl, inr, Bool-cases,
}
use ptransfer_cli.Archive.{Error, cancelled}
use ptransfer_cli.Crypto.Chunk.{encryption_chunk_size}

-- The chunk being filled, and the chunks handed over.
pub record ChunkWriter : Type 0 where
  pub chunk : List ℕ
  pub sent : List (List ℕ)

abbrev pub new : ChunkWriter
new = record { chunk = []; sent = [] }

-- `is_open` says whether the transfer still takes chunks after those handed over.
module _ (is_open : List (List ℕ) → Bool) where
  -- `send_chunk`, with the chunk taken out of the writer.
  abbrev pub send_chunk : ChunkWriter → List ℕ → Result Error ChunkWriter
  send_chunk w chunk =
      if is_open w.sent
      then ok record { chunk = []; sent = w.sent ++ chunk ∷ [] }
      else err cancelled

  -- `finish`
  unfoldable pub finish : ChunkWriter → Result Error ChunkWriter
  finish w = if is_empty w.chunk then ok w else send_chunk w w.chunk

  module _ (size : ℕ) where
    -- One round of the loop of `write`, over what is left of the input: as much as fits, and a full
    -- chunk is handed over.
    abbrev pub room : ChunkWriter → List ℕ → ℕ
    room w input = min (size - length w.chunk) (length input)

    unfoldable pub fill : ChunkWriter → List ℕ → Result Error ChunkWriter
    fill w input =
        let chunk = w.chunk ++ take (room w input) input in
        if length chunk == size then send_chunk w chunk else ok (record w { chunk = chunk })

    -- `while !input.is_empty()`, whose rounds are counted; each takes a byte at least.
    unfoldable pub write_loop : ℕ → ChunkWriter → List ℕ → Result Error ChunkWriter
    write_loop rounds w [] = ok w
    write_loop zero w (b ∷ bs) = ok w
    write_loop (suc rounds) w (b ∷ bs) = do
      next ← fill w (b ∷ bs)
      write_loop rounds next (drop (room w (b ∷ bs)) (b ∷ bs))

    unfoldable pub write : ChunkWriter → List ℕ → Result Error ChunkWriter
    unfolding fill write_loop
    write w input = write_loop (length input) w input

    -- What a producer writes, one write after the other, and its end.
    unfoldable pub produce : ChunkWriter → List (List ℕ) → Result Error ChunkWriter
    produce w [] = finish w
    produce w (input ∷ inputs) = do next ← write w input; produce next inputs

-- A chunk is never full between writes, and those handed over all are.
module _ (n : ℕ) where
  abbrev IsFilling : ChunkWriter → Type 0
  IsFilling w = (length w.chunk ≤ n) × All (λ c. length c ≡ suc n) w.sent

  abbrev total : ChunkWriter → List ℕ
  total w = concat w.sent ++ w.chunk

  concat_last : (sent : List (List ℕ)) (c : List ℕ) → concat (sent ++ c ∷ []) ≡ concat sent ++ c
  concat_last [] c = append-nil c
  concat_last (s ∷ sent) c =
      ap (λ t. s ++ t) (concat_last sent c) ∙ sym (append_assoc s (concat sent) c)

  chunks_full :
      (c rest : List ℕ) → length c ≡ suc n → chunks (suc n) (c ++ rest) ≡ c ∷ chunks (suc n) rest
  chunks_full [] rest h = absurd (omega (arith, h))
  chunks_full (b ∷ bs) rest h =
      chunks_step n b (bs ++ rest)
      ∙ ap₂ (λ t u. (b ∷ t) ∷ chunks (suc n) u) (take-append n bs rest (omega (arith, h)))
          (drop-append n bs rest (omega (arith, h)))

  chunks_sent :
      (sent : List (List ℕ)) (rest : List ℕ)
      → All (λ c. length c ≡ suc n) sent
      → chunks (suc n) (concat sent ++ rest) ≡ sent ++ chunks (suc n) rest
  chunks_sent [] rest h = refl
  chunks_sent (s ∷ sent) rest h =
      ap (chunks (suc n)) (append_assoc s (concat sent) rest)
      ∙ chunks_full s (concat sent ++ rest) h.0
      ∙ ap (λ t. s ∷ t) (chunks_sent sent rest h.1)

  module _ (is_open : List (List ℕ) → Bool)
      (always : (sent : List (List ℕ)) → is_open sent ≡ true) where
    send_chunk-ok :
        (w : ChunkWriter) (c : List ℕ)
        → send_chunk is_open w c ≡ ok record { chunk = []; sent = w.sent ++ c ∷ [] }
    send_chunk-ok w c = rw (always w.sent) refl

    fill-IsFilling :
        (w : ChunkWriter) (input : List ℕ)
        → IsFilling w
        → (next : ChunkWriter) × (fill is_open (suc n) w input ≡ ok next)
          × IsFilling next
          × (total next ≡ total w ++ take (room is_open (suc n) w input) input)
    unfolding fill
    fill-IsFilling w input (small, full) =
        let chunk = w.chunk ++ take (room is_open (suc n) w input) input in
        let sized : length chunk ≤ suc n = omega (
          arith,
          length-append w.chunk (take (room is_open (suc n) w input) input),
          length-take (room is_open (suc n) w input) input,
        ) in
        elim (Bool-cases (length chunk == suc n)) [
          | inl e ↦ (
            record { chunk = []; sent = w.sent ++ chunk ∷ [] },
            rw e (send_chunk-ok w chunk),
            (
              omega arith,
              All-append (λ c. length c ≡ suc n) w.sent (chunk ∷ []) full (ground (arith, e), tt),
            ),
            append-nil (concat (w.sent ++ chunk ∷ []))
                ∙ concat_last w.sent chunk
                ∙ sym (
                    append_assoc (concat w.sent) w.chunk
                      (take (room is_open (suc n) w input) input)),
          )
          | inr e ↦ (
            record w { chunk = chunk },
            rw e refl,
            (ground (arith, sized, e), full),
            sym (append_assoc (concat w.sent) w.chunk (take (room is_open (suc n) w input) input)),
          )
        ]

    write_loop-IsFilling :
        (rounds : ℕ) (w : ChunkWriter) (input : List ℕ)
        → length input ≤ rounds
        → IsFilling w
        → (next : ChunkWriter) × (write_loop is_open (suc n) rounds w input ≡ ok next)
          × IsFilling next
          × (total next ≡ total w ++ input)
    unfolding write_loop
    write_loop-IsFilling rounds w [] h f = (w, refl, f, sym (append-nil (total w)))
    write_loop-IsFilling zero w (b ∷ bs) h f = absurd (omega arith)
    write_loop-IsFilling (suc rounds) w (b ∷ bs) h f =
        let taken = room is_open (suc n) w (b ∷ bs) in
        let (next, filled, g, so_far) = fill-IsFilling w (b ∷ bs) f in
        let less : length (drop taken (b ∷ bs)) ≤ rounds =
          omega (arith, f.0, length-drop taken (b ∷ bs)) in
        let (last, written, k, all_of) =
          write_loop-IsFilling rounds next (drop taken (b ∷ bs)) less g in
        (
          last,
          rw filled written,
          k,
          all_of
              ∙ ap (λ t. t ++ drop taken (b ∷ bs)) so_far
              ∙ append_assoc (total w) (take taken (b ∷ bs)) (drop taken (b ∷ bs))
              ∙ ap (λ t. total w ++ t) (take-append-drop taken (b ∷ bs)),
        )

    finish_with :
        (chunk : List ℕ) (sent : List (List ℕ))
        → IsFilling (record { chunk = chunk; sent = sent })
        → finish is_open (record { chunk = chunk; sent = sent })
          ≡ ok record { chunk = []; sent = chunks (suc n) (concat sent ++ chunk) }
    unfolding finish
    finish_with [] sent f =
        ap (λ s. ok record { chunk = []; sent = s })
          (sym
            (chunks_sent sent [] f.1 ∙ ap (λ t. sent ++ t) (chunks_nil (suc n)) ∙ append-nil sent))
    finish_with (b ∷ bs) sent f =
        send_chunk-ok (record { chunk = b ∷ bs; sent = sent }) (b ∷ bs)
        ∙ ap (λ s. ok record { chunk = []; sent = s })
            (sym (
              chunks_sent sent (b ∷ bs) f.1
              ∙ ap (λ t. sent ++ t) (chunks_single n b bs (omega (arith, f.0)))))

    finish-chunks :
        (w : ChunkWriter)
        → IsFilling w
        → finish is_open w ≡ ok record { chunk = []; sent = chunks (suc n) (total w) }
    finish-chunks w f = finish_with w.chunk w.sent f

    produce-total :
        (w : ChunkWriter) (inputs : List (List ℕ))
        → IsFilling w
        → produce is_open (suc n) w inputs
          ≡ ok record { chunk = []; sent = chunks (suc n) (total w ++ concat inputs) }
    unfolding produce write
    produce-total w [] f =
        finish-chunks w f
        ∙ ap (λ t. ok record { chunk = []; sent = chunks (suc n) t }) (sym (append-nil (total w)))
    produce-total w (input ∷ inputs) f =
        let (next, written, g, so_far) =
          write_loop-IsFilling (length input) w input (omega arith) f in
        rw written (
          produce-total next inputs g
          ∙ ap (λ t. ok record { chunk = []; sent = chunks (suc n) t })
              (ap (λ t. t ++ concat inputs) so_far ∙ append_assoc (total w) input (concat inputs)))

-- However the producer cuts what it writes, a transfer that takes every chunk is handed the bytes in
-- pieces of 128 KiB, the last of what is left, and nothing for no bytes.
pub produce-chunks :
    (is_open : List (List ℕ) → Bool) (inputs : List (List ℕ))
    → ((sent : List (List ℕ)) → is_open sent ≡ true)
    → produce is_open encryption_chunk_size new inputs
      ≡ ok record { chunk = []; sent = chunks encryption_chunk_size (concat inputs) }
produce-chunks is_open inputs always =
    produce-total 131_071 is_open always new inputs (omega arith, tt)
