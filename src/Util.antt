-- ===== src/Util.antt =====
-- src/util.rs: the name under which a received file is saved. A text is the list of its characters. A path
-- is a file of the output directory, so it is given by its name; `exists` is what the disk answers.
pub mod Names
pub mod Destination
mod Runs
use ptransfer_cli.Common.{
  ℕ, zero, suc, ◌+◌, List, [], ◌∷◌, ◌++◌, Option, none, some, Bool, true, false, not, ◌&&◌, ◌||◌,
  leb, ◌==◌, if◌then◌else◌, is_empty, Result, ok, err, ◌>>=◌, or_err,
}
use ptransfer_cli.Common.Bytes.{codes, bytes_eq}
use ptransfer_cli.Common.Decimal.{decimal}

abbrev pub is_separator : ℕ → Bool
is_separator c = c == b'/' || c == b'\\'

abbrev pub is_dot : ℕ → Bool
is_dot c = c == b'.'

-- `char::is_whitespace`
abbrev pub is_whitespace : ℕ → Bool
is_whitespace c =
    (leb 9 c && leb c 13)
    || c == 32
    || c == 133
    || c == 160
    || c == 5760
    || (leb 8192 c && leb c 8202)
    || c == 8232
    || c == 8233
    || c == 8239
    || c == 8287
    || c == 12_288

-- `rsplit(['/', '\\']).next()`: the part after the last separator, from the part read so far.
unfoldable pub last_part : List ℕ → List ℕ → List ℕ
last_part part [] = part
last_part part (c ∷ cs) = last_part (if is_separator c then [] else part ++ c ∷ []) cs

unfoldable pub trim_start : (ℕ → Bool) → List ℕ → List ℕ
trim_start drops [] = []
trim_start drops (c ∷ cs) = let rest = trim_start drops cs in if drops c then rest else c ∷ cs

unfoldable pub trim_end : (ℕ → Bool) → List ℕ → List ℕ
trim_end drops [] = []
trim_end drops (c ∷ cs) =
    let rest = trim_end drops cs in if is_empty rest && drops c then [] else c ∷ rest

abbrev pub trim_matches : (ℕ → Bool) → List ℕ → List ℕ
trim_matches drops text = trim_end drops (trim_start drops text)

unfoldable pub sanitize_filename : List ℕ → List ℕ
unfolding last_part
sanitize_filename name =
    let base = trim_matches is_dot (trim_matches is_whitespace (last_part [] name)) in
    if is_empty base || bytes_eq base (codes ".") || bytes_eq base (codes "..")
    then codes "received.bin"
    else base

pub data OnConflict : Type 0 where
  prompt fail overwrite : OnConflict

pub data FileExistsChoice : Type 0 where
  overwrite_it rename cancel : FileExistsChoice

pub data Error : Type 0 where
  prompt_failed destination_exists rounds_spent : Error

-- The name up to its last dot and what follows that, where there is a dot.
abbrev pub split_more : ℕ → List ℕ → Option (List ℕ × List ℕ) → Option (List ℕ × List ℕ)
split_more c cs none = if is_dot c then some ([], cs) else none
split_more c cs (some (stem, extension)) = some (c ∷ stem, extension)

unfoldable pub rsplit_dot : List ℕ → Option (List ℕ × List ℕ)
rsplit_dot [] = none
rsplit_dot (c ∷ cs) = split_more c cs (rsplit_dot cs)

-- The stem and the extension, with its dot.
abbrev pub stem_of : List ℕ → Option (List ℕ × List ℕ) → List ℕ × List ℕ
stem_of name none = (name, [])
stem_of name (some ([], extension)) = (name, [])
stem_of name (some (c ∷ stem, extension)) = (c ∷ stem, b'.' ∷ extension)

unfoldable pub candidate : List ℕ → ℕ → List ℕ
candidate file_name n =
    let parts = stem_of file_name (rsplit_dot file_name) in
    parts.0 ++ (codes " (" ++ (decimal n ++ (codes ")" ++ parts.1)))

module _ (exists : List ℕ → Bool) where
  -- The loop from `n` on, for as many rounds as are counted.
  unfoldable pub unique_from : List ℕ → ℕ → ℕ → Option (List ℕ)
  unique_from file_name zero n = none
  unique_from file_name (suc rounds) n =
      let later = unique_from file_name rounds (n + 1) in
      if exists (candidate file_name n) then later else some (candidate file_name n)

  abbrev pub choice_of : OnConflict → Option FileExistsChoice → Result Error FileExistsChoice
  choice_of prompt none = err prompt_failed
  choice_of prompt (some choice) = ok choice
  choice_of fail answer = err destination_exists
  choice_of overwrite answer = ok overwrite_it

  -- `none` where the person cancels.
  abbrev pub chosen : ℕ → List ℕ → FileExistsChoice → Result Error (Option (List ℕ))
  chosen rounds safe overwrite_it = ok (some safe)
  chosen rounds safe rename =
      or_err (unique_from safe rounds 1) rounds_spent >>= λ free. ok (some free)
  chosen rounds safe cancel = ok none

  -- `answer` is what the modal gives, `none` where it fails.
  unfoldable pub resolve_destination :
      ℕ → List ℕ → OnConflict → Option FileExistsChoice → Result Error (Option (List ℕ))
  unfolding unique_from
  resolve_destination rounds file_name on_conflict answer =
      let safe = sanitize_filename file_name in
      if not (exists safe)
      then ok (some safe)
      else choice_of on_conflict answer >>= chosen rounds safe
