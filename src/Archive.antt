-- ===== src/Archive.antt =====
-- src/archive.rs: what a selection of files is sent as, and how its bytes are handed to the transfer.
-- A path is what the file system gives there, which is an argument; a text is the list of its characters.
pub mod Plan
pub mod Pieces
pub mod Planned
pub mod Sizes
mod Runs
use ptransfer_cli.Common.{
  ℕ, ◌+◌, ◌-◌, ◌*◌, ◌^◌, min, List, [], ◌∷◌, ◌++◌, Option, none, some, Bool, not, ltb, leb, ◌==◌,
  if◌then◌else◌, length, is_empty, Result, ok, err, ◌>>=◌, ◌>>◌, ensure, or_err,
}
use ptransfer_cli.NostrFile.{div_ceil}
use ptransfer_cli.NostrFile.Manifest.{saturating_add}

pub data Error : Type 0 where
  nothing_to_send unreadable not_regular no_files duplicate_entry bad_name out_of_range : Error
  file_empty over_cap missing_name cancelled : Error

abbrev pub deflate_upper_bound : ℕ → ℕ
deflate_upper_bound bytes = saturating_add (saturating_add bytes (div_ceil bytes 16_383 * 5)) 64

abbrev pub check_size_cap : ℕ → ℕ → Result Error (Unit {0})
check_size_cap file_size cap = ensure (not (ltb cap file_size)) over_cap
