-- ===== src/NostrFile/Handover/Checked.antt =====
-- What a file that `verify_file` hands over has passed.
use ptransfer_cli.Common.{
  ℕ, ◌≡◌, refl, subst, ap, ◌++◌, List, Option, true, false, ◌==◌, length, Result, ok, err, ensure,
  ◌>>=◌, ◌>>◌, with_err, Bool, arith,
}
use ptransfer_cli.Common.Bytes.{bytes_eq}
use ptransfer_cli.Wire
use ptransfer_cli.Wire.Flate.{Decoder}
use ptransfer_cli.NostrFile.Codec
use ptransfer_cli.NostrFile.Codec.{
  PayloadCompression, plain, deflate, decompress_payload, assemble_chunks, wrong_size,
  inflate_failed,
}
use ptransfer_cli.NostrFile.Manifest.{NostrFileManifest}
use ptransfer_cli.NostrFile.Handover.{verify_file, not_assembled, not_decompressed, corrupted}

ensure-returns :
    {E A : Type 0} (test : Bool) (e : E) (value : A) {out : A}
    → (ensure test e >> ok value) ≡ ok out
    → (test ≡ true) × (value ≡ out)
ensure-returns true e value h = (refl, cc)
ensure-returns false e value h = cc

size_checked :
    (out : List ℕ) (file_size : ℕ) {contents : List ℕ}
    → (ensure (length out == file_size) wrong_size >> ok out) ≡ ok contents
    → length contents ≡ file_size
size_checked out file_size h =
    let (right, same) = ensure-returns (length out == file_size) wrong_size out h in
    let size : length out ≡ file_size = ground (arith, right) in
    subst (λ c. length c ≡ file_size) same size

finished_size :
    (d : Decoder) (file_size : ℕ) (first : Wire.Inflater d)
    (finished : Result Wire.Error (Wire.Inflater d)) {contents : List ℕ}
    → (do
      last ← with_err finished inflate_failed
      ensure (length (first.out ++ last.out) == file_size) wrong_size
      ok (first.out ++ last.out))
      ≡ ok contents
    → length contents ≡ file_size
finished_size d file_size first (err e) h = cc
finished_size d file_size first (ok last) h = size_checked (first.out ++ last.out) file_size h

inflated_size :
    (d : Decoder) (file_size : ℕ) (pushed : Result Wire.Error (Wire.Inflater d)) {contents : List ℕ}
    → (do
      first ← with_err pushed inflate_failed
      last ← with_err (Wire.finish d first) inflate_failed
      ensure (length (first.out ++ last.out) == file_size) wrong_size
      ok (first.out ++ last.out))
      ≡ ok contents
    → length contents ≡ file_size
inflated_size d file_size (err e) h = cc
inflated_size d file_size (ok first) h = finished_size d file_size first (Wire.finish d first) h

length-decompress_payload :
    (d : Decoder) (payload : List ℕ) (compression : PayloadCompression) (file_size : ℕ)
    {contents : List ℕ}
    → decompress_payload d payload compression file_size ≡ ok contents
    → length contents ≡ file_size
unfolding decompress_payload
length-decompress_payload d payload plain file_size h = size_checked payload file_size h
length-decompress_payload d payload deflate file_size h =
    inflated_size d file_size (Wire.push d (Wire.new d file_size) payload) h

hash_checked :
    (file_hash : List ℕ → List ℕ) (m : NostrFileManifest) (out : Result Codec.Error (List ℕ))
    {contents : List ℕ}
    → (do
      c ← with_err out not_decompressed
      ensure (bytes_eq (file_hash c) m.file_hash) corrupted
      ok c)
      ≡ ok contents
    → (out ≡ ok contents) × (bytes_eq (file_hash contents) m.file_hash ≡ true)
hash_checked file_hash m (err e) h = cc
hash_checked file_hash m (ok c) h =
    let (right, same) = ensure-returns (bytes_eq (file_hash c) m.file_hash) corrupted c h in
    (ap ok same, subst (λ t. bytes_eq (file_hash t) m.file_hash ≡ true) same right)

checked_payload :
    (d : Decoder) (file_hash : List ℕ → List ℕ) (m : NostrFileManifest)
    (payload : Result Codec.Error (List ℕ)) {contents : List ℕ}
    → (do
      p ← with_err payload not_assembled
      c ← with_err (decompress_payload d p m.compression m.file_size) not_decompressed
      ensure (bytes_eq (file_hash c) m.file_hash) corrupted
      ok c)
      ≡ ok contents
    → (length contents ≡ m.file_size) × (bytes_eq (file_hash contents) m.file_hash ≡ true)
checked_payload d file_hash m (err e) h = cc
checked_payload d file_hash m (ok p) h =
    let (e, hash) = hash_checked file_hash m (decompress_payload d p m.compression m.file_size) h in
    (length-decompress_payload d p m.compression m.file_size e, hash)

-- A file that is handed over has the size and the hash of the manifest.
pub verify_file-checked :
    (d : Decoder) (file_hash : List ℕ → List ℕ) (m : NostrFileManifest)
    (pieces : List (Option (List ℕ))) {contents : List ℕ}
    → verify_file d file_hash m pieces ≡ ok contents
    → (length contents ≡ m.file_size) × (bytes_eq (file_hash contents) m.file_hash ≡ true)
unfolding verify_file
verify_file-checked d file_hash m pieces h =
    checked_payload d file_hash m (assemble_chunks pieces m.payload_size) h
