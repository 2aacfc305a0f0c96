-- ===== src/Archive/Runs.antt =====
-- A folder and a loose file prepared and packed into pieces.
use ptransfer_cli.Common.{
  ℕ, ◌+◌, ◌*◌, ◌<◌, ◌^◌, ◌≡◌, refl, List, [], ◌∷◌, Option, some, true, ok, err, chunks, arith,
}
use ptransfer_cli.Common.Bytes.{codes}
use ptransfer_cli.Archive.{duplicate_entry}
use ptransfer_cli.Crypto.Chunk.{encryption_chunk_size}
use ptransfer_cli.Archive.Pieces.{new, produce, produce-chunks}
use ptransfer_cli.Archive.Plan.{
  file, folder, link_to_file, link_to_folder, child, no_more, Input, insert_entry, collect_dir,
  plan_inputs, plan_entries, sum_sizes, project_from, project_zip_wire_size, zip_source,
  prepare_send_source_with_cap, SendSource, zip,
}
use ptransfer_cli.Archive.Sizes.{IsPrepared, prepare_send_source_with_cap-IsPrepared}
use ptransfer_cli.Wire.{identity}

abbrev size_of : ℕ → Option ℕ
size_of path = some 1000

abbrev docs : Input
docs = record {
  name = some (codes "docs");
  node = folder (
      child (some (codes "b")) (file 1) (
        child (some (codes "a")) (link_to_file 2)
          (child (some (codes "up")) link_to_folder no_more)));
}

abbrev loose : Input
loose = record { name = some (codes "c"); node = file 3 }

abbrev stamp : List ℕ
stamp = codes "20260101000000"

abbrev source : SendSource
source = record {
  file_name = codes "files_20260101000000.zip";
  estimated_size = 3000;
  projected_wire_size = 128 + 3 * (1000 + 5 + 64 + 160) + 2 * 13;
  mime_type = codes "application/zip";
  wire_encoding = identity;
  kind = zip ((codes "c", 3) ∷ (codes "docs/a", 2) ∷ (codes "docs/b", 1) ∷ []);
}

prepared : prepare_send_source_with_cap size_of (docs ∷ loose ∷ []) 4000 stamp ≡ ok source
unfolding prepare_send_source_with_cap zip_source plan_entries plan_inputs collect_dir insert_entry
    sum_sizes project_zip_wire_size project_from
prepared = refl

twice : plan_entries (loose ∷ loose ∷ []) stamp ≡ err duplicate_entry
unfolding plan_entries plan_inputs insert_entry
twice = refl

small_sizes : (p n : ℕ) → size_of p ≡ some n → n < 2 ^ 64
small_sizes p n h = ground (arith, h)

prepare_send_source_with_cap-IsPrepared_example : IsPrepared size_of (docs ∷ loose ∷ []) 4000 source
prepare_send_source_with_cap-IsPrepared_example =
    prepare_send_source_with_cap-IsPrepared size_of (docs ∷ loose ∷ []) 4000 stamp source
      small_sizes prepared

produce-chunks_example :
    produce (λ sent. true) encryption_chunk_size new ((1 ∷ 2 ∷ []) ∷ [] ∷ (3 ∷ []) ∷ [])
    ≡ ok record { chunk = []; sent = chunks encryption_chunk_size (1 ∷ 2 ∷ 3 ∷ []) }
produce-chunks_example =
    produce-chunks (λ sent. true) ((1 ∷ 2 ∷ []) ∷ [] ∷ (3 ∷ []) ∷ []) (λ sent. refl)
