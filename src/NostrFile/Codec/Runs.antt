-- ===== src/NostrFile/Codec/Runs.antt =====
-- Runs of codec.rs on concrete data, some of its own tests among them, and its theorems there.
use ptransfer_cli.Common.{ℕ, ◌≡◌, refl, List, [], ◌∷◌, none, some, replicate, ok, err, ◌>>=◌, arith}
use ptransfer_cli.Common.Bytes.{codes}
use ptransfer_cli.Crypto.Aead.{drawn}
use ptransfer_cli.Crypto.Aead.Toy.{toy_aead}
use ptransfer_cli.NostrFile.{nostr_file_chunk_size}
use ptransfer_cli.NostrFile.Codec.{
  missing, size_mismatch, too_large, append_chunks, assemble_chunks, split_payload, seal_pieces,
  open_pieces,
}
use ptransfer_cli.NostrFile.Codec.Additional.{chunk_aad_injective}
use ptransfer_cli.NostrFile.Codec.Assembly.{assemble_chunks-seal_pieces}

abbrev transfer_id : List ℕ
transfer_id = codes "c05587dba544d9543610d42f7b7b640d"

-- `assembly_refuses_anything_but_the_promised_pieces`
assembly_refusals :
    (assemble_chunks (some (replicate 4 1) ∷ some (replicate 4 2) ∷ []) 9 ≡ err size_mismatch)
    × (assemble_chunks (some (replicate 4 1) ∷ some (replicate 4 2) ∷ []) 7 ≡ err too_large)
    × (assemble_chunks (some (replicate 4 1) ∷ none ∷ []) 8 ≡ err missing)
unfolding assemble_chunks append_chunks
assembly_refusals = (refl, refl, refl)

assemble_chunks-seal_pieces_example :
    (seal_pieces toy_aead
        (7 ∷ [])
        transfer_id
        1
        (λ i. drawn (replicate 12 1))
        0
        (split_payload (1 ∷ 2 ∷ 3 ∷ []))
      >>= λ contents.
          assemble_chunks
            (open_pieces toy_aead (7 ∷ []) transfer_id 1 nostr_file_chunk_size 0 contents)
            3)
    ≡ ok (1 ∷ 2 ∷ 3 ∷ [])
assemble_chunks-seal_pieces_example =
    assemble_chunks-seal_pieces toy_aead (7 ∷ []) transfer_id (1 ∷ 2 ∷ 3 ∷ []) (λ i. replicate 12 1)
      (omega arith) (λ i. omega arith)

abbrev piece : ℕ
piece = 2

abbrev piece_count : ℕ
piece_count = 9

chunk_aad_injective_example :
    (transfer_id ≡ transfer_id) × (piece ≡ piece) × (piece_count ≡ piece_count)
chunk_aad_injective_example =
    chunk_aad_injective transfer_id transfer_id piece piece piece_count piece_count refl refl
      (omega arith) (omega arith) (omega arith) (omega arith) refl
