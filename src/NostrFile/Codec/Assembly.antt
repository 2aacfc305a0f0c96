-- ===== src/NostrFile/Codec/Assembly.antt =====
-- A payload split, sealed, opened and assembled.
use ptransfer_cli.Common.{
  ℕ, zero, suc, ◌+◌, ◌≤◌, ◌≡◌, refl, sym, ap, ap₂, ◌-◌, ◌/◌, ◌%◌, Bool-cases, inl, inr, ◌∙◌, List,
  [], ◌∷◌, ◌++◌, map, append-nil, append_assoc, All, All-take, All-drop, length, length-append,
  length-take, length-drop, drop, chunks_step, chunks_nil, concat, concat-chunks, some, Bool, ltb,
  ◌==◌, ok, ◌>>=◌, arith,
}
use ptransfer_cli.Common.Bytes.{IsByte}
use ptransfer_cli.Crypto.Aead.{Aead, drawn}
use ptransfer_cli.NostrFile.{nostr_file_chunk_size}
use ptransfer_cli.NostrFile.Codec.{
  chunk_aad, seal_pieces, kept, open_piece, open_pieces, append_chunks, assemble_chunks,
  chunk_count, split_payload,
}
use ptransfer_cli.NostrFile.Codec.Pieces.{
  content_of, encode_chunk_content-ok, decode_chunk_content-content,
}

abbrev IsPiece : List ℕ → Type 0
IsPiece chunk = (length chunk ≤ nostr_file_chunk_size) × All IsByte chunk

pieces_below :
    (f : ℕ) (payload : List ℕ)
    → length payload ≤ f
    → All IsByte payload
    → All IsPiece (split_payload payload)
pieces_below f [] h bs = rw (chunks_nil {A = ℕ} nostr_file_chunk_size) tt
pieces_below zero (x ∷ xs) h bs = absurd (omega arith)
pieces_below (suc f) (x ∷ xs) h bs = rw (chunks_step 49_151 x xs) (
  (omega (arith, length-take 49_151 xs), (bs.0, All-take IsByte 49_151 xs bs.1)),
  pieces_below f (drop 49_151 xs) (omega (arith, length-drop 49_151 xs))
      (All-drop IsByte 49_151 xs bs.1),
)

pub split_payload-pieces :
    (payload : List ℕ) → All IsByte payload → All IsPiece (split_payload payload)
split_payload-pieces payload bs = pieces_below (length payload) payload (omega arith) bs

chunk_count-up : (n : ℕ) → chunk_count n ≡ (n + 49_151) / 49_152
chunk_count-up n = elim (Bool-cases (n % 49_152 == 0)) [
  | inl e ↦ rw e (ground arith)
  | inr e ↦ rw e (ground arith)
]

count_step : (n : ℕ) → suc (chunk_count (n - 49_151)) ≡ chunk_count (suc n)
count_step n = rw (chunk_count-up (n - 49_151), chunk_count-up (suc n)) (omega arith)

count_below :
    (f : ℕ) (payload : List ℕ)
    → length payload ≤ f
    → length (split_payload payload) ≡ chunk_count (length payload)
count_below f [] h = rw (chunks_nil {A = ℕ} nostr_file_chunk_size) refl
count_below zero (x ∷ xs) h = absurd (omega arith)
count_below (suc f) (x ∷ xs) h = rw (chunks_step 49_151 x xs) (
    ap suc (count_below f (drop 49_151 xs) (omega (arith, length-drop 49_151 xs)))
    ∙ ap (λ n. suc (chunk_count n)) (length-drop 49_151 xs)
    ∙ count_step (length xs))

-- A payload is split into as many pieces as `chunk_count` says.
pub length-split_payload :
    (payload : List ℕ) → length (split_payload payload) ≡ chunk_count (length payload)
length-split_payload payload = count_below (length payload) payload (omega arith)

append_chunks-concat :
    (payload_size : ℕ) (payload : List ℕ) (pieces : List (List ℕ))
    → length payload + length (concat pieces) ≤ payload_size
    → append_chunks payload_size payload (map some pieces) ≡ ok (payload ++ concat pieces)
unfolding append_chunks
append_chunks-concat payload_size payload [] h = ap ok (sym (append-nil payload))
append_chunks-concat payload_size payload (piece ∷ pieces) h =
    rw
      (
        fits,
        append_chunks-concat payload_size (payload ++ piece) pieces inside,
        append_assoc payload piece (concat pieces),
      )
      refl
  where
    fits : ltb payload_size (length payload + length piece) ≡ Bool.false
    fits = ground (arith, length-append piece (concat pieces))

    inside : length (payload ++ piece) + length (concat pieces) ≤ payload_size
    inside = omega (arith, length-append payload piece, length-append piece (concat pieces))

pub assemble_chunks-concat :
    (pieces : List (List ℕ))
    → assemble_chunks (map some pieces) (length (concat pieces)) ≡ ok (concat pieces)
unfolding assemble_chunks
assemble_chunks-concat pieces =
    rw (append_chunks-concat (length (concat pieces)) [] pieces (omega arith)) (ground arith)

module _ (aead : Aead) (key transfer_id : List ℕ) (total : ℕ) (nonce : ℕ → List ℕ) where
  contents_of : ℕ → List (List ℕ) → List (List ℕ)
  contents_of index [] = []
  contents_of index (chunk ∷ rest) =
      content_of aead key chunk (chunk_aad transfer_id index total) (nonce index)
      ∷ contents_of (index + 1) rest

  seal_pieces-contents :
      (index : ℕ) (pieces : List (List ℕ))
      → seal_pieces aead key transfer_id total (λ i. drawn (nonce i)) index pieces
        ≡ ok (contents_of index pieces)
  unfolding seal_pieces contents_of
  seal_pieces-contents index [] = refl
  seal_pieces-contents index (chunk ∷ rest) =
      rw
        (
          encode_chunk_content-ok aead key chunk (chunk_aad transfer_id index total) (nonce index),
          seal_pieces-contents (index + 1) rest,
        )
        refl

  open_piece-content :
      (index : ℕ) (chunk : List ℕ)
      → (length (nonce index) ≡ 12) × All IsByte (nonce index)
      → IsPiece chunk
      → open_piece aead key transfer_id total nostr_file_chunk_size index
          (content_of aead key chunk (chunk_aad transfer_id index total) (nonce index))
        ≡ some chunk
  unfolding open_piece
  open_piece-content index chunk (width, ns) (fits, bs) = ap kept (
      decode_chunk_content-content aead key chunk (chunk_aad transfer_id index total) (nonce index)
        nostr_file_chunk_size width ns bs fits)

  open_pieces-contents :
      (index : ℕ) (pieces : List (List ℕ))
      → ((i : ℕ) → (length (nonce i) ≡ 12) × All IsByte (nonce i))
      → All IsPiece pieces
      → open_pieces aead key transfer_id total nostr_file_chunk_size index
          (contents_of index pieces)
        ≡ map some pieces
  unfolding open_pieces contents_of
  open_pieces-contents index [] drawn_bytes ps = refl
  open_pieces-contents index (chunk ∷ rest) drawn_bytes (p, ps) =
      ap₂ (λ x y. x ∷ y) (open_piece-content index chunk (drawn_bytes index) p)
        (open_pieces-contents (index + 1) rest drawn_bytes ps)

-- A payload of bytes split into pieces, each sealed for its own place under a nonce of twelve
-- bytes, is put together again from the pieces that open in those places.
pub assemble_chunks-seal_pieces :
    (aead : Aead) (key transfer_id payload : List ℕ) (nonce : ℕ → List ℕ)
    → All IsByte payload
    → ((i : ℕ) → (length (nonce i) ≡ 12) × All IsByte (nonce i))
    → let total = chunk_count (length payload) in
      (seal_pieces aead key transfer_id total (λ i. drawn (nonce i)) 0 (split_payload payload)
        >>= λ contents.
            assemble_chunks
              (open_pieces aead key transfer_id total nostr_file_chunk_size 0 contents)
              (length payload))
      ≡ ok payload
assemble_chunks-seal_pieces aead key transfer_id payload nonce bs drawn_bytes =
    let total = chunk_count (length payload) in
    let pieces = split_payload payload in
    rw
      (
        seal_pieces-contents aead key transfer_id total nonce 0 pieces,
        open_pieces-contents aead key transfer_id total nonce 0 pieces drawn_bytes
            (split_payload-pieces payload bs),
      )
      whole
  where
    whole : assemble_chunks (map some (split_payload payload)) (length payload) ≡ ok payload
    whole =
        ap (λ p. assemble_chunks (map some (split_payload payload)) (length p))
          (sym (concat-chunks 49_151 payload))
        ∙ assemble_chunks-concat (split_payload payload)
        ∙ ap ok (concat-chunks 49_151 payload)
