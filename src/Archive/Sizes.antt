-- ===== src/Archive/Sizes.antt =====
-- What a prepared source of archive.rs says of its sizes and of its contents.
use ptransfer_cli.Common.{
  ℕ, ◌+◌, ◌*◌, ◌^◌, ◌≤◌, ◌<◌, ◌≡◌, refl, ◌⊎◌, inl, inr, ap, subst, ◌∙◌, List, [], ◌∷◌, Option, none,
  some, true, false, not, ltb, ◌==◌, is_empty, and_then, and_then-some, ok, ensure-next,
  ensure-true, or_err-next, >>=-ok, >>-ok, ok_injective, arith,
}
use ptransfer_cli.Archive.{
  unreadable, out_of_range, over_cap, file_empty, missing_name, deflate_upper_bound, check_size_cap,
}
use ptransfer_cli.Archive.Plan.{
  Node, file, folder, closed_folder, link_to_file, link_to_folder, broken_link, special, missing,
  Input, Entries, SendSource, SendSourceKind, one_file, zip, sum_sizes, project_from,
  project_zip_wire_size, single_file_source, zip_source, lone_file, prepare_one,
  prepare_send_source_with_cap, plan_entries, own_name, zip_per_entry_bytes,
}
use ptransfer_cli.Archive.Planned.{zero_add, is_sorted, weight, files_of, plan_entries-files_of}
use ptransfer_cli.NostrFile.Manifest.{checked_add}
use ptransfer_cli.NostrFile.RelayUrl.{text_len}
use ptransfer_cli.Util.{is_whitespace, trim_matches}
use ptransfer_cli.Wire.{deflate_raw, identity}

checked_add-some : (a b c : ℕ) → checked_add a b ≡ some c → a + b ≡ c
checked_add-some a b c h = ground (arith, h)

bound_above : (n : ℕ) → n < 2 ^ 64 → n ≤ deflate_upper_bound n
bound_above n h = ground (arith, h)

room_for :
    (total size bound t u k next : ℕ)
    → size ≤ bound
    → total + bound ≡ t
    → t + 160 ≡ u
    → u + k ≡ next
    → total + size ≤ next
room_for total size bound t u k next w x y z = omega (arith, w, x, y, z)

entry_room :
    (total size len next : ℕ)
    → size < 2 ^ 64
    → and_then
        (checked_add total (deflate_upper_bound size))
        (λ t. and_then (checked_add t zip_per_entry_bytes) (λ u. checked_add u (2 * len)))
      ≡ some next
    → total + size ≤ next
entry_room total size len next small h =
    let (t, first, c) = and_then-some (checked_add total (deflate_upper_bound size)) _ h in
    let (u, second, d) = and_then-some (checked_add t zip_per_entry_bytes) _ c in
    let x = checked_add-some total (deflate_upper_bound size) t first in
    let y = checked_add-some t 160 u second in
    let z = checked_add-some u (2 * len) next d in
    let w = bound_above size small in
    room_for total size (deflate_upper_bound size) t u (2 * len) next w x y z

below_cap : (size cap : ℕ) → check_size_cap size cap ≡ ok tt → size ≤ cap
below_cap size cap h = ground (arith, ensure-true (not (ltb cap size)) over_cap h)

at_most : (size sum projected : ℕ) → size ≡ 0 + sum → 128 + sum ≤ projected → size ≤ projected
at_most size sum projected e h = omega (arith, e, h)

not_zero : (n : ℕ) → not (n == 0) ≡ true → 0 < n
not_zero n h = ground (arith, h)

module _ (size_of : ℕ → Option ℕ) where
  abbrev pub size_or : Option ℕ → ℕ
  size_or none = 0
  size_or (some n) = n

  -- The size of an entry's file.
  abbrev pub entry_size : List ℕ × ℕ → ℕ
  entry_size e = size_or (size_of e.1)

  sum_sizes-weight :
      (total out : ℕ) (es : Entries)
      → sum_sizes size_of total es ≡ ok out
      → out ≡ total + weight entry_size es
  unfolding sum_sizes
  sum_sizes-weight total out [] h = let same : total ≡ out = cc in omega (arith, same)
  sum_sizes-weight total out ((key, path) ∷ es) h =
      let (size, sized, a) = or_err-next (size_of path) unreadable _ h in
      let (next, added, b) = or_err-next (checked_add total size) out_of_range _ a in
      let here : entry_size (key, path) ≡ size = ap size_or sized in
      omega (arith, here, checked_add-some total size next added, sum_sizes-weight next out es b)

  project_from-bound :
      (total out : ℕ) (es : Entries)
      → ((path n : ℕ) → size_of path ≡ some n → n < 2 ^ 64)
      → project_from size_of total es ≡ ok out
      → total + weight entry_size es ≤ out
  unfolding project_from
  project_from-bound total out [] u64 h = let same : total ≡ out = cc in omega (arith, same)
  project_from-bound total out ((key, path) ∷ es) u64 h =
      let (size, sized, a) = or_err-next (size_of path) unreadable _ h in
      let (next, added, b) =
        or_err-next
          (and_then (checked_add total (deflate_upper_bound size)) (λ t.
            and_then (checked_add t zip_per_entry_bytes) (λ u. checked_add u (2 * text_len key))))
          out_of_range _ a in
      let here : entry_size (key, path) ≡ size = ap size_or sized in
      let room = entry_room total size (text_len key) next (u64 path size sized) added in
      omega (arith, here, room, project_from-bound next out es u64 b)

  -- What is read as a file, from where it lies.
  abbrev IsFile : Node → ℕ → Type 0
  IsFile node path = (node ≡ file path) ⊎ (node ≡ link_to_file path)

  -- By its kind: the file that is the whole selection, or the planned archive of the whole selection.
  abbrev pub IsContent : List Input → SendSource → SendSourceKind → Type 0
  IsContent inputs s (one_file path) =
      ((input : Input) × (inputs ≡ input ∷ []) × IsFile input.node path)
      × (size_of path ≡ some s.estimated_size)
      × (0 < s.estimated_size)
      × (s.wire_encoding ≡ deflate_raw)
  IsContent inputs s (zip entries) =
      (is_sorted entries ≡ true)
      × ((f : List ℕ × ℕ → ℕ) → weight f entries ≡ weight f (files_of inputs))
      × (is_empty entries ≡ false)
      × (s.estimated_size ≡ weight entry_size entries)
      × (s.wire_encoding ≡ identity)

  abbrev pub IsPrepared : List Input → ℕ → SendSource → Type 0
  IsPrepared inputs cap s =
      (s.estimated_size ≤ cap)
      × (s.estimated_size ≤ s.projected_wire_size)
      × IsContent inputs s s.kind

  zip_source-IsPrepared :
      (inputs : List Input) (cap : ℕ) (stamp : List ℕ) (s : SendSource)
      → ((path n : ℕ) → size_of path ≡ some n → n < 2 ^ 64)
      → zip_source size_of inputs cap stamp ≡ ok s
      → IsPrepared inputs cap s
  unfolding zip_source project_zip_wire_size
  zip_source-IsPrepared inputs cap stamp s u64 h =
      let ((entries, name), planned, a) = >>=-ok (plan_entries inputs stamp) _ h in
      let (size, summed, b) = >>=-ok (sum_sizes size_of 0 entries) _ a in
      let (capped, c) = >>-ok (check_size_cap size cap) _ b in
      let (projected, bounded, made) = >>=-ok (project_from size_of 128 entries) _ c in
      let (sorted, weights, filled) = plan_entries-files_of inputs stamp entries name planned in
      let sum = sum_sizes-weight 0 size entries summed in
      let above = project_from-bound 128 projected entries u64 bounded in
      subst (IsPrepared inputs cap) (ok_injective made) (
        below_cap size cap capped,
        at_most size (weight entry_size entries) projected sum above,
        (sorted, weights, filled, sum ∙ zero_add (weight entry_size entries), refl),
      )

  single_file_source-IsPrepared :
      (inputs : List Input) (name : Option (List ℕ)) (path size cap : ℕ) (s : SendSource)
      → ((input : Input) × (inputs ≡ input ∷ []) × IsFile input.node path)
      → size_of path ≡ some size
      → size < 2 ^ 64
      → single_file_source size_of name path size cap ≡ ok s
      → IsPrepared inputs cap s
  unfolding single_file_source
  single_file_source-IsPrepared inputs name path size cap s lone sized u64 h =
      let a = ensure-next (not (size == 0)) file_empty _ h in
      let (capped, b) = >>-ok (check_size_cap size cap) _ a.1 in
      let c =
        ensure-next (not (is_empty (trim_matches is_whitespace (own_name name)))) missing_name _
          b in
      subst (IsPrepared inputs cap) (ok_injective c.1)
        (below_cap size cap capped, bound_above size u64, (lone, sized, not_zero size a.0, refl))

  lone_file-IsPrepared :
      (inputs : List Input) (name : Option (List ℕ)) (path cap : ℕ) (s : SendSource)
      → ((input : Input) × (inputs ≡ input ∷ []) × IsFile input.node path)
      → ((p n : ℕ) → size_of p ≡ some n → n < 2 ^ 64)
      → lone_file size_of name path cap ≡ ok s
      → IsPrepared inputs cap s
  lone_file-IsPrepared inputs name path cap s lone u64 h =
      let (size, sized, a) = or_err-next (size_of path) unreadable _ h in
      single_file_source-IsPrepared inputs name path size cap s lone sized (u64 path size sized) a

  prepare_one-IsPrepared :
      (name : Option (List ℕ)) (node : Node) (cap : ℕ) (stamp : List ℕ) (s : SendSource)
      → ((p n : ℕ) → size_of p ≡ some n → n < 2 ^ 64)
      → prepare_one size_of name node cap stamp ≡ ok s
      → IsPrepared (record { name = name; node = node } ∷ []) cap s
  prepare_one-IsPrepared name (file path) cap stamp s u64 h =
      lone_file-IsPrepared (record { name = name; node = file path } ∷ []) name path cap s
        (record { name = name; node = file path }, refl, inl refl) u64 h
  prepare_one-IsPrepared name (link_to_file path) cap stamp s u64 h =
      lone_file-IsPrepared (record { name = name; node = link_to_file path } ∷ []) name path cap s
        (record { name = name; node = link_to_file path }, refl, inr refl) u64 h
  prepare_one-IsPrepared name (folder cs) cap stamp s u64 h =
      zip_source-IsPrepared _ cap stamp s u64 h
  prepare_one-IsPrepared name closed_folder cap stamp s u64 h =
      zip_source-IsPrepared _ cap stamp s u64 h
  prepare_one-IsPrepared name link_to_folder cap stamp s u64 h = cc
  prepare_one-IsPrepared name broken_link cap stamp s u64 h = cc
  prepare_one-IsPrepared name special cap stamp s u64 h = cc
  prepare_one-IsPrepared name missing cap stamp s u64 h = cc

  -- A source that is prepared, where the lengths of files have 64 bits, is within the cap and projected to
  -- take no fewer bytes on the wire than its input. It is the one file of the selection, that is not empty, to be compressed; or an
  -- archive of one entry at least, as it is, with every file of the selection under its key, as often as
  -- the selection has it and nothing else, its keys in order and none twice, and its size the sum of theirs.
  pub prepare_send_source_with_cap-IsPrepared :
      (inputs : List Input) (cap : ℕ) (stamp : List ℕ) (s : SendSource)
      → ((p n : ℕ) → size_of p ≡ some n → n < 2 ^ 64)
      → prepare_send_source_with_cap size_of inputs cap stamp ≡ ok s
      → IsPrepared inputs cap s
  unfolding prepare_send_source_with_cap
  prepare_send_source_with_cap-IsPrepared [] cap stamp s u64 h = cc
  prepare_send_source_with_cap-IsPrepared (input ∷ []) cap stamp s u64 h =
      prepare_one-IsPrepared input.name input.node cap stamp s u64 h
  prepare_send_source_with_cap-IsPrepared (a ∷ b ∷ inputs) cap stamp s u64 h =
      zip_source-IsPrepared (a ∷ b ∷ inputs) cap stamp s u64 h
