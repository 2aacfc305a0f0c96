-- ===== src/Archive/Plan.antt =====
-- The planning half of archive.rs: the entries of an archive, and what a selection is sent as. The file
-- system's answers stand in the tree: the children of a folder come in the order of their names, and a
-- path is a number under which `size_of` gives the length of its file, where it can be read.
use ptransfer_cli.Common.{
  ℕ, zero, suc, ◌+◌, ◌*◌, List, [], ◌∷◌, ◌++◌, Option, none, some, Bool, true, false, ◌||◌, ◌&&◌,
  not, ltb, ◌==◌, if◌then◌else◌, is_empty, and_then, Result, ok, err, ◌>>=◌, ◌>>◌, ensure, or_err,
}
use ptransfer_cli.Common.Bytes.{codes, bytes_eq}
use ptransfer_cli.Archive.{
  Error, nothing_to_send, unreadable, not_regular, no_files, duplicate_entry, bad_name,
  out_of_range, file_empty, missing_name, deflate_upper_bound, check_size_cap,
}
use ptransfer_cli.NostrFile.Manifest.{checked_add}
use ptransfer_cli.NostrFile.RelayUrl.{text_len}
use ptransfer_cli.Util.{is_whitespace, trim_matches}
use ptransfer_cli.Wire.{WireEncoding, deflate_raw, identity}

-- What stands under a name: links with what they lead to, and what cannot be read.
mutual
  pub data Node : Type 0 where
    file : ℕ → Node
    folder : Children → Node
    closed_folder : Node
    link_to_file : ℕ → Node
    link_to_folder broken_link special missing : Node

  -- A name is absent where it is no UTF-8.
  pub data Children : Type 0 where
    no_more : Children
    child : Option (List ℕ) → Node → Children → Children

-- An input of the selection with its own name; the node is what its path leads to, links followed.
pub record Input : Type 0 where
  pub name : Option (List ℕ)
  pub node : Node

abbrev pub Entries : Type 0
Entries = List (List ℕ × ℕ)

-- The order of the keys of a `BTreeMap<String, _>`.
abbrev pub before : List ℕ → List ℕ → Bool
before [] [] = false
before [] (y ∷ ys) = true
before (x ∷ xs) [] = false
before (x ∷ xs) (y ∷ ys) = ltb x y || (x == y && before xs ys)

abbrev pub contains_key : List ℕ → Entries → Bool
contains_key key [] = false
contains_key key ((k, path) ∷ entries) = bytes_eq key k || contains_key key entries

abbrev pub insert : List ℕ × ℕ → Entries → Entries
insert entry [] = entry ∷ []
insert entry (e ∷ entries) =
    let rest = insert entry entries in if before entry.0 e.0 then entry ∷ e ∷ entries else e ∷ rest

unfoldable pub insert_entry : Entries → List ℕ → ℕ → Result Error Entries
insert_entry entries key path = do
  ensure (not (contains_key key entries)) duplicate_entry
  ok (insert (key, path) entries)

unfoldable mutual
  pub collect_dir : Children → List ℕ → Entries → Result Error Entries
  collect_dir no_more path entries = ok entries
  collect_dir (child none node rest) path entries = err bad_name
  collect_dir (child (some name) node rest) path entries = do
    next ← collect_node node (path ++ b'/' ∷ name) entries
    collect_dir rest path next

  pub collect_node : Node → List ℕ → Entries → Result Error Entries
  collect_node (file path) key entries = insert_entry entries key path
  collect_node (folder children) key entries = collect_dir children key entries
  collect_node closed_folder key entries = err unreadable
  collect_node (link_to_file path) key entries = insert_entry entries key path
  collect_node link_to_folder key entries = ok entries
  collect_node broken_link key entries = ok entries
  collect_node special key entries = ok entries
  collect_node missing key entries = err unreadable

-- The names of the folders and the count of the files so far.
pub record Planned : Type 0 where
  pub entries : Entries
  pub folder_names : List (List ℕ)
  pub file_count : ℕ

abbrev pub plan_folder : Option (List ℕ) → Children → Planned → Result Error Planned
plan_folder name children p = do
  folder_name ← or_err name bad_name
  entries ← collect_dir children folder_name p.entries
  ok (record p { entries = entries; folder_names = p.folder_names ++ folder_name ∷ [] })

abbrev pub plan_file : Option (List ℕ) → ℕ → Planned → Result Error Planned
plan_file name path p = do
  file_name ← or_err name bad_name
  entries ← insert_entry p.entries file_name path
  ok (record p { entries = entries; file_count = p.file_count + 1 })

abbrev pub plan_input : Option (List ℕ) → Node → Planned → Result Error Planned
plan_input name (file path) p = plan_file name path p
plan_input name (folder children) p = plan_folder name children p
plan_input name closed_folder p = do folder_name ← or_err name bad_name; err unreadable
plan_input name (link_to_file path) p = plan_file name path p
plan_input name link_to_folder p = err unreadable
plan_input name broken_link p = err unreadable
plan_input name special p = err not_regular
plan_input name missing p = err unreadable

unfoldable pub plan_inputs : List Input → Planned → Result Error Planned
plan_inputs [] p = ok p
plan_inputs (input ∷ inputs) p = do
  next ← plan_input input.name input.node p
  plan_inputs inputs next

-- `format!("{folder}_{stamp}.zip")` for one folder alone, and `files_{stamp}.zip`.
abbrev pub archive_name : List (List ℕ) → ℕ → List ℕ → List ℕ
archive_name (folder_name ∷ []) zero stamp = folder_name ++ (b'_' ∷ stamp ++ codes ".zip")
archive_name (folder_name ∷ []) (suc n) stamp = codes "files_" ++ (stamp ++ codes ".zip")
archive_name (a ∷ b ∷ names) count stamp = codes "files_" ++ (stamp ++ codes ".zip")
archive_name [] count stamp = codes "files_" ++ (stamp ++ codes ".zip")

unfoldable pub plan_entries : List Input → List ℕ → Result Error (Entries × List ℕ)
unfolding plan_inputs
plan_entries inputs stamp = do
  p ← plan_inputs inputs (record { entries = []; folder_names = []; file_count = 0 })
  ensure (not (is_empty p.entries)) no_files
  ok (p.entries, archive_name p.folder_names p.file_count stamp)

abbrev pub zip_per_entry_bytes : ℕ
zip_per_entry_bytes = 160

abbrev pub zip_trailer_bytes : ℕ
zip_trailer_bytes = 128

pub data SendSourceKind : Type 0 where
  one_file : ℕ → SendSourceKind
  zip : Entries → SendSourceKind

pub record SendSource : Type 0 where
  pub file_name : List ℕ
  pub estimated_size : ℕ
  pub projected_wire_size : ℕ
  pub mime_type : List ℕ
  pub wire_encoding : WireEncoding
  pub kind : SendSourceKind

-- The name of the path, or `file` where it has none or is no UTF-8.
abbrev pub own_name : Option (List ℕ) → List ℕ
own_name none = codes "file"
own_name (some name) = name

module _ (size_of : ℕ → Option ℕ) where
  -- The sum of the sizes, from `total` on.
  unfoldable pub sum_sizes : ℕ → Entries → Result Error ℕ
  sum_sizes total [] = ok total
  sum_sizes total ((key, path) ∷ entries) = do
    size ← or_err (size_of path) unreadable
    next ← or_err (checked_add total size) out_of_range
    sum_sizes next entries

  unfoldable pub project_from : ℕ → Entries → Result Error ℕ
  project_from total [] = ok total
  project_from total ((key, path) ∷ entries) = do
    size ← or_err (size_of path) unreadable
    next ←
        or_err
          (and_then (checked_add total (deflate_upper_bound size)) (λ t.
            and_then (checked_add t zip_per_entry_bytes) (λ u. checked_add u (2 * text_len key))))
          out_of_range
    project_from next entries

  unfoldable pub project_zip_wire_size : Entries → Result Error ℕ
  unfolding project_from
  project_zip_wire_size entries = project_from zip_trailer_bytes entries

  unfoldable pub single_file_source : Option (List ℕ) → ℕ → ℕ → ℕ → Result Error SendSource
  single_file_source name path file_size cap = do
    ensure (not (file_size == 0)) file_empty
    check_size_cap file_size cap
    let file_name = trim_matches is_whitespace (own_name name)
    ensure (not (is_empty file_name)) missing_name
    ok record {
      file_name = file_name;
      estimated_size = file_size;
      projected_wire_size = deflate_upper_bound file_size;
      mime_type = codes "application/octet-stream";
      wire_encoding = deflate_raw;
      kind = one_file path;
    }

  unfoldable pub zip_source : List Input → ℕ → List ℕ → Result Error SendSource
  zip_source inputs cap stamp = do
    (entries, name) ← plan_entries inputs stamp
    estimated_size ← sum_sizes 0 entries
    check_size_cap estimated_size cap
    projected ← project_zip_wire_size entries
    ok record {
      file_name = name;
      estimated_size = estimated_size;
      projected_wire_size = projected;
      mime_type = codes "application/zip";
      wire_encoding = identity;
      kind = zip entries;
    }

  -- One input alone that is a file.
  abbrev pub lone_file : Option (List ℕ) → ℕ → ℕ → Result Error SendSource
  lone_file name path cap = do
    size ← or_err (size_of path) unreadable
    single_file_source name path size cap

  abbrev pub prepare_one : Option (List ℕ) → Node → ℕ → List ℕ → Result Error SendSource
  prepare_one name (file path) cap stamp = lone_file name path cap
  prepare_one name (link_to_file path) cap stamp = lone_file name path cap
  prepare_one name (folder children) cap stamp =
      zip_source (record { name = name; node = folder children } ∷ []) cap stamp
  prepare_one name closed_folder cap stamp =
      zip_source (record { name = name; node = closed_folder } ∷ []) cap stamp
  prepare_one name link_to_folder cap stamp = err unreadable
  prepare_one name broken_link cap stamp = err unreadable
  prepare_one name special cap stamp = err not_regular
  prepare_one name missing cap stamp = err unreadable

  -- The clock's stamp is an argument.
  unfoldable pub prepare_send_source_with_cap : List Input → ℕ → List ℕ → Result Error SendSource
  prepare_send_source_with_cap [] cap stamp = err nothing_to_send
  prepare_send_source_with_cap (input ∷ []) cap stamp = prepare_one input.name input.node cap stamp
  prepare_send_source_with_cap (a ∷ b ∷ inputs) cap stamp = zip_source (a ∷ b ∷ inputs) cap stamp
