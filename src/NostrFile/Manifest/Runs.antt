-- ===== src/NostrFile/Manifest/Runs.antt =====
-- Runs of manifest.rs on the manifest of its own tests, and its theorems on it.
use ptransfer_cli.Common.{
  some, ℕ, ◌^◌, ◌<◌, ◌≤◌, ◌≡◌, ◌+◌, ◌*◌, true, refl, List, [], ◌∷◌, ◌++◌, Option, none, replicate,
  ok, err, arith,
}
use ptransfer_cli.Common.Bytes.{codes}
use ptransfer_cli.NostrFile.Codec.{PayloadCompression, deflate, plain, compress_payload}
use ptransfer_cli.NostrFile.Manifest.{
  NostrFileManifest, bad_window, bad_payload_size, validate, check_window, is_base64_sha256,
  is_identity, manifest_of, prepare, expired, in_future,
}
use ptransfer_cli.NostrFile.Manifest.Valid.{validate_bounds}
use ptransfer_cli.NostrFile.Manifest.Made.{prepare_valid}

abbrev hash_text : List ℕ
hash_text = replicate 43 b'A' ++ b'=' ∷ []

abbrev identity_text : List ℕ
identity_text = replicate 64 b'a'

abbrev sample : NostrFileManifest
sample = record {
  v = 7;
  file_name = codes "report.pdf";
  file_size = 3;
  mime_type = codes "application/pdf";
  file_hash = hash_text;
  pubkey = identity_text;
  compression = plain;
  payload_size = 3;
  chunk_size = 49_152;
  total_chunks = 1;
  enc = 2;
  created_at = 1000;
  expires_at = 4600;
}

sample_valid : validate sample ≡ ok tt
unfolding validate is_base64_sha256 is_identity
sample_valid = refl

sample_refusals :
    (validate (record sample { expires_at = 4601 }) ≡ err bad_window)
    × (validate (record sample { payload_size = 2 }) ≡ err bad_payload_size)
    × (check_window sample 5201 ≡ err expired)
    × (check_window sample 399 ≡ err in_future)
unfolding validate check_window is_base64_sha256 is_identity
sample_refusals = (refl, refl, refl, refl)

validate_bounds_example :
    (1 ≤ 3)
    × (3 ≤ 100 * 1024 * 1024)
    × (3 ≤ 1 * 49_152)
    × (1 * 49_152 < 3 + 49_152)
    × (1 ≤ 102_408)
    × (49_152 ≤ 65_408)
    × (4600 ≡ 1000 + 3600)
    × (4600 < 2 ^ 64)
validate_bounds_example = validate_bounds sample sample_valid

abbrev no_encoder : List ℕ → Option (List ℕ)
no_encoder contents = none

sample_hash : is_base64_sha256 hash_text ≡ true
unfolding is_base64_sha256
sample_hash = refl

sample_identity : is_identity identity_text ≡ true
unfolding is_identity
sample_identity = refl

-- An encoder that gives two bytes, and one that gives more than the bound allows for three.
abbrev packs : List ℕ → Option (List ℕ)
packs contents = some (3 ∷ 0 ∷ [])

abbrev grows : List ℕ → Option (List ℕ)
grows contents = some (replicate 73 0)

abbrev made : (List ℕ → Option (List ℕ)) → PayloadCompression → List ℕ → NostrFileManifest
made encoder compression payload =
    manifest_of encoder (λ c. hash_text) identity_text (codes "report.pdf")
      (codes "application/pdf") (1 ∷ 2 ∷ 3 ∷ []) compression payload 1000

packed_fits :
    prepare packs
      (λ c. hash_text)
      identity_text
      (codes "report.pdf")
      (codes "application/pdf")
      (1 ∷ 2 ∷ 3 ∷ [])
      deflate
      1000
    ≡ ok (made packs deflate (3 ∷ 0 ∷ []), 3 ∷ 0 ∷ [])
unfolding prepare compress_payload
packed_fits = refl

grown_sent :
    prepare grows
      (λ c. hash_text)
      identity_text
      (codes "report.pdf")
      (codes "application/pdf")
      (1 ∷ 2 ∷ 3 ∷ [])
      deflate
      1000
    ≡ ok (made grows deflate (replicate 73 0), replicate 73 0)
unfolding prepare compress_payload
grown_sent = refl

prepare_valid_example :
    (validate (made packs deflate (3 ∷ 0 ∷ [])) ≡ ok tt)
    × (check_window (made packs deflate (3 ∷ 0 ∷ [])) 1200 ≡ ok tt)
prepare_valid_example =
    prepare_valid packs (λ c. hash_text) identity_text (codes "report.pdf")
      (codes "application/pdf") (1 ∷ 2 ∷ 3 ∷ []) (3 ∷ 0 ∷ []) deflate 1000 1200
      (made packs deflate (3 ∷ 0 ∷ [])) refl sample_hash sample_identity (omega arith) (omega arith)
      (omega arith) (omega arith) packed_fits

-- The sender takes a payload that the receiver refuses.
grown_refused :
    (validate (made grows deflate (replicate 73 0)) ≡ err bad_payload_size)
    × (check_window (made grows deflate (replicate 73 0)) 1200 ≡ ok tt)
grown_refused =
    prepare_valid grows (λ c. hash_text) identity_text (codes "report.pdf")
      (codes "application/pdf") (1 ∷ 2 ∷ 3 ∷ []) (replicate 73 0) deflate 1000 1200
      (made grows deflate (replicate 73 0)) refl sample_hash sample_identity (omega arith)
      (omega arith) (omega arith) (omega arith) grown_sent
