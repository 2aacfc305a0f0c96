-- ===== src/NostrFile.antt =====
-- src/code/nostr_file: a file in sealed pieces on public relays. This module has the constants of
-- mod.rs that the others share; a `usize` has 64 bits.
pub mod Codec
pub mod RelayUrl
pub mod RelayCache
pub mod Manifest
pub mod Handover
pub mod Control
pub mod Events
pub mod Download
pub mod Upload
use ptransfer_cli.Common.{ℕ, ◌+◌, ◌*◌, ◌/◌, ◌%◌, List, ◌==◌, if◌then◌else◌}
use ptransfer_cli.Common.Bytes.{codes}

abbrev pub nostr_file_chunk_size : ℕ
nostr_file_chunk_size = 49_152

abbrev pub nostr_file_expiration_sec : ℕ
nostr_file_expiration_sec = 3600

abbrev pub manifest_version : ℕ
manifest_version = 7

abbrev pub nostr_file_aad_prefix : List ℕ
nostr_file_aad_prefix = codes "ptransfer-nostr-file:v1"

-- `SLOW_TRANSPORT_MAX_BYTES`
abbrev pub relay_max_bytes : ℕ
relay_max_bytes = 100 * 1024 * 1024

abbrev pub clock_skew_tolerance_sec : ℕ
clock_skew_tolerance_sec = 600

-- `div_ceil` of Rust's unsigned integers.
abbrev pub div_ceil : ℕ → ℕ → ℕ
div_ceil n d = n / d + (if n % d == 0 then 0 else 1)
