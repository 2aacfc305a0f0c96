-- ===== src/Util/Runs.antt =====
-- Runs of util.rs, its own tests among them, and the theorems on names.
use ptransfer_cli.Common.{ℕ, ◌≡◌, refl, List, some, Bool, false, ◌||◌, err}
use ptransfer_cli.Common.Bytes.{codes, bytes_eq}
use ptransfer_cli.Common.Decimal.{decimal}
use ptransfer_cli.Util.{
  last_part, trim_start, trim_end, sanitize_filename, rsplit_dot, candidate, fail, rename,
  destination_exists, resolve_destination,
}

-- `sanitizes_paths`
sanitizes_paths :
    (sanitize_filename (codes "../../etc/passwd") ≡ codes "passwd")
    × (sanitize_filename (codes "a/b/c.txt") ≡ codes "c.txt")
    × (sanitize_filename (codes "C:\\Windows\\x.dll") ≡ codes "x.dll")
    × (sanitize_filename (codes "   ") ≡ codes "received.bin")
    × (sanitize_filename (codes "..") ≡ codes "received.bin")
unfolding sanitize_filename last_part trim_start trim_end
sanitizes_paths = (refl, refl, refl, refl, refl)

-- A directory with two files.
abbrev is_there : List ℕ → Bool
is_there name = bytes_eq name (codes "a.txt") || bytes_eq name (codes "a (1).txt")

second_free : is_there (candidate (codes "a.txt") 2) ≡ false
unfolding candidate rsplit_dot decimal
second_free = refl

refuses : resolve_destination is_there 5 (codes "a.txt") fail (some rename) ≡ err destination_exists
unfolding resolve_destination sanitize_filename last_part trim_start trim_end
refuses = refl
