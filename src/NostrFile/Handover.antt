-- ===== src/NostrFile/Handover.antt =====
-- The end of `cycle` in src/code/nostr_file/download.rs: the pieces become the file.
mod Runs
pub mod RoundTrip
pub mod Checked
use ptransfer_cli.Common.{List, Option, Result, ok, ◌>>=◌, ◌>>◌, ensure, with_err, ℕ}
use ptransfer_cli.Common.Bytes.{bytes_eq}
use ptransfer_cli.Wire.Flate.{Decoder}
use ptransfer_cli.NostrFile.Codec.{decompress_payload, assemble_chunks}
use ptransfer_cli.NostrFile.Manifest.{NostrFileManifest}

pub data Error : Type 0 where
  not_assembled not_decompressed corrupted : Error

module _ (d : Decoder) (file_hash : List ℕ → List ℕ) where
  unfoldable pub verify_file : NostrFileManifest → List (Option (List ℕ)) → Result Error (List ℕ)
  verify_file m pieces = do
    payload ← with_err (assemble_chunks pieces m.payload_size) not_assembled
    contents ← with_err (decompress_payload d payload m.compression m.file_size) not_decompressed
    ensure (bytes_eq (file_hash contents) m.file_hash) corrupted
    ok contents
