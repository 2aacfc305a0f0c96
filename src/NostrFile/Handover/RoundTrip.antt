-- ===== src/NostrFile/Handover/RoundTrip.antt =====
-- A file's whole way over the relays: prepared and sealed by upload.rs, opened and verified by
-- download.rs.
use ptransfer_cli.Common.{
  ℕ, is_empty, ◌+◌, ◌^◌, ◌≤◌, ◌<◌, ◌≡◌, refl, sym, ap, ◌∙◌, List, [], ◌∷◌, Option, true, false, All,
  length, Result, ok, ◌>>=◌, ◌>>◌, with_err, arith, >>=-ok,
}
use ptransfer_cli.Common.Bytes.{IsByte, bytes_eq_refl}
use ptransfer_cli.Crypto.Aead.{Aead, drawn}
use ptransfer_cli.Wire.Flate.{Decoder}
use ptransfer_cli.NostrFile.{relay_max_bytes, nostr_file_chunk_size}
use ptransfer_cli.NostrFile.Codec.{
  plain, compress_payload, decompress_payload, assemble_chunks, seal_pieces, open_pieces,
  split_payload,
}
use ptransfer_cli.NostrFile.Codec.Assembly.{length-split_payload, assemble_chunks-seal_pieces}
use ptransfer_cli.NostrFile.Manifest.{
  NostrFileManifest, prepare, validate, manifest_of, is_base64_sha256, is_identity,
}
use ptransfer_cli.NostrFile.Manifest.Made.{validate-manifest_of}
use ptransfer_cli.NostrFile.Handover.{verify_file}

module _ (d : Decoder) (encoder : List ℕ → Option (List ℕ)) (file_hash : List ℕ → List ℕ)
    (pubkey file_name mime_type contents : List ℕ) (now : ℕ) where
  made : NostrFileManifest
  made = manifest_of encoder file_hash pubkey file_name mime_type contents plain contents now

  prepare-plain :
      1 ≤ length contents
      → length contents ≤ relay_max_bytes
      → prepare encoder file_hash pubkey file_name mime_type contents plain now
        ≡ ok (made, contents)
  unfolding prepare compress_payload made
  prepare-plain low high = nonempty contents low (omega arith)
    where
      nonempty :
          (xs : List ℕ)
          → 1 ≤ length xs
          → length xs ≤ relay_max_bytes
          → prepare encoder file_hash pubkey file_name mime_type xs plain now
            ≡ ok (manifest_of encoder file_hash pubkey file_name mime_type xs plain xs now, xs)
      nonempty [] l h = absurd (omega arith)
      nonempty (x ∷ xs) l h = unfold prepare compress_payload in ground arith

  verify_file-plain :
      (pieces : List (Option (List ℕ)))
      → assemble_chunks pieces (length contents) ≡ ok contents
      → verify_file d file_hash made pieces ≡ ok contents
  unfolding verify_file decompress_payload made
  verify_file-plain pieces h = rw h (ground (arith, bytes_eq_refl (file_hash contents)))

-- How far a file gets on its way.
pub data Stage : Type 0 where
  preparing sealing checking verifying : Stage

-- The way of a file that travels uncompressed and of which every piece arrives.
unfoldable pub relay_file :
    Aead
    → Decoder
    → (List ℕ → Option (List ℕ))
    → (List ℕ → List ℕ)
    → List ℕ
    → List ℕ
    → List ℕ
    → List ℕ
    → List ℕ
    → List ℕ
    → ℕ
    → (ℕ → List ℕ)
    → Result Stage (List ℕ)
relay_file aead d encoder file_hash pubkey file_name mime_type contents key transfer_id now nonce =
    do
      (m, payload) ←
          with_err (prepare encoder file_hash pubkey file_name mime_type contents plain now)
            preparing
      let pieces = split_payload payload
      published ←
          with_err
            (seal_pieces aead key transfer_id (length pieces) (λ i. drawn (nonce i)) 0 pieces)
            sealing
      with_err (validate m) checking
      with_err
          (verify_file d file_hash m
            (open_pieces aead key transfer_id m.total_chunks m.chunk_size 0 published))
          verifying

-- A file of at most 100 MiB that travels uncompressed, sealed piece by piece under nonces of twelve
-- bytes, passes the receiver's checks of the manifest and is handed over as it was: for a file with
-- a name, and the hash and the identity in their formats.
pub relay_file-ok :
    (aead : Aead) (d : Decoder) (encoder : List ℕ → Option (List ℕ)) (file_hash : List ℕ → List ℕ)
    (pubkey file_name mime_type contents key transfer_id : List ℕ) (now : ℕ) (nonce : ℕ → List ℕ)
    → is_empty file_name ≡ false
    → is_base64_sha256 (file_hash contents) ≡ true
    → is_identity pubkey ≡ true
    → now + 3600 < 2 ^ 64
    → 1 ≤ length contents
    → length contents ≤ relay_max_bytes
    → All IsByte contents
    → ((i : ℕ) → (length (nonce i) ≡ 12) × All IsByte (nonce i))
    → relay_file aead d encoder file_hash pubkey file_name mime_type contents key transfer_id now
        nonce
      ≡ ok contents
unfolding relay_file made
relay_file-ok aead d encoder file_hash pubkey file_name mime_type contents key transfer_id now nonce
      hn hh hp hw low high bs drawn_bytes =
    let valid =
      validate-manifest_of encoder file_hash pubkey file_name mime_type contents contents plain now
        hn hh hp low high hw refl in
    let (published, e, opened) =
      >>=-ok _ _ (assemble_chunks-seal_pieces aead key transfer_id contents nonce bs drawn_bytes) in
    let sealed =
      sym (
        ap
          (λ t.
            seal_pieces aead key transfer_id t (λ i. drawn (nonce i)) 0 (split_payload contents))
          (sym (length-split_payload contents)))
      ∙ e in
    let joined =
      ap
        (λ t.
          assemble_chunks (open_pieces aead key transfer_id t nostr_file_chunk_size 0 published)
            (length contents))
        (length-split_payload contents)
      ∙ opened in
    let handed =
      verify_file-plain d encoder file_hash pubkey file_name mime_type contents now _ joined in
    rw
      (
        prepare-plain d encoder file_hash pubkey file_name mime_type contents now low high,
        sealed,
        valid,
        handed,
      )
      refl
