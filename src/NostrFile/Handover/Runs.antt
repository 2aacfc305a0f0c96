-- ===== src/NostrFile/Handover/Runs.antt =====
-- A file of three bytes on its way over the relays.
use ptransfer_cli.Common.{◌≡◌, refl, true, [], ◌∷◌, ◌++◌, none, replicate, ok, arith}
use ptransfer_cli.Common.Bytes.{codes}
use ptransfer_cli.Crypto.Aead.Toy.{toy_aead}
use ptransfer_cli.Wire.Flate.Toy.{toy_decoder}
use ptransfer_cli.NostrFile.Manifest.{is_base64_sha256, is_identity}
use ptransfer_cli.NostrFile.Handover.RoundTrip.{relay_file, relay_file-ok}

sample_hash : is_base64_sha256 (replicate 43 b'A' ++ b'=' ∷ []) ≡ true
unfolding is_base64_sha256
sample_hash = refl

sample_identity : is_identity (replicate 64 b'a') ≡ true
unfolding is_identity
sample_identity = refl

relay_file-ok_example :
    relay_file toy_aead toy_decoder
      (λ c. none)
      (λ c. replicate 43 b'A' ++ b'=' ∷ [])
      (replicate 64 b'a')
      (codes "report.pdf")
      (codes "application/pdf")
      (1 ∷ 2 ∷ 3 ∷ [])
      (7 ∷ [])
      (codes "c05587dba544d9543610d42f7b7b640d")
      1000
      (λ i. replicate 12 1)
    ≡ ok (1 ∷ 2 ∷ 3 ∷ [])
relay_file-ok_example =
    relay_file-ok toy_aead toy_decoder (λ c. none) (λ c. replicate 43 b'A' ++ b'=' ∷ [])
      (replicate 64 b'a') (codes "report.pdf") (codes "application/pdf") (1 ∷ 2 ∷ 3 ∷ []) (7 ∷ [])
      (codes "c05587dba544d9543610d42f7b7b640d") 1000 (λ i. replicate 12 1) refl sample_hash
      sample_identity (omega arith) (omega arith) (omega arith) (omega arith) (λ i. omega arith)
