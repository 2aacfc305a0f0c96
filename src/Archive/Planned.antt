-- ===== src/Archive/Planned.antt =====
-- What the plan of archive.rs holds: every file of the selection, once, under its own key.
use ptransfer_cli.Common.{
  ℕ, ◌+◌, ◌≡◌, refl, sym, ap, subst, ◌∙◌, List, [], ◌∷◌, ◌++◌, Option, none, some, Bool, true,
  false, not, ◌&&◌, Bool-cases, is_empty, all, Result, ok, err, ensure-next, >>=-ok, inl, inr,
  arith,
}
use ptransfer_cli.Common.Bytes.{bytes_eq}
use ptransfer_cli.Archive.{Error, duplicate_entry, no_files}
use ptransfer_cli.Archive.Plan.{
  Node, file, folder, closed_folder, link_to_file, link_to_folder, broken_link, special, missing,
  Children, no_more, child, Input, Entries, before, contains_key, insert, insert_entry, collect_dir,
  collect_node, Planned, plan_folder, plan_file, plan_input, plan_inputs, plan_entries,
}

-- Keys in their order, none twice.
abbrev pub is_sorted : Entries → Bool
is_sorted [] = true
is_sorted (e ∷ es) = all (λ f. before e.0 f.0) es && is_sorted es

-- The entries counted by any weight: two lists that have the same weights hold the same entries, each as
-- often.
abbrev pub weight : (List ℕ × ℕ → ℕ) → Entries → ℕ
weight f [] = 0
weight f (e ∷ es) = f e + weight f es

-- The files of the selection with their keys, links to files among them.
mutual
  pub files_at : Node → List ℕ → Entries
  files_at (file path) key = (key, path) ∷ []
  files_at (folder children) key = files_in children key
  files_at closed_folder key = []
  files_at (link_to_file path) key = (key, path) ∷ []
  files_at link_to_folder key = []
  files_at broken_link key = []
  files_at special key = []
  files_at missing key = []

  pub files_in : Children → List ℕ → Entries
  files_in no_more path = []
  files_in (child none node rest) path = files_in rest path
  files_in (child (some name) node rest) path =
      files_at node (path ++ b'/' ∷ name) ++ files_in rest path

abbrev pub files_of_input : Option (List ℕ) → Node → Entries
files_of_input none node = []
files_of_input (some name) node = files_at node name

abbrev pub files_of : List Input → Entries
files_of [] = []
files_of (input ∷ inputs) = files_of_input input.name input.node ++ files_of inputs

before_trans : (x y z : List ℕ) → before x y ≡ true → before y z ≡ true → before x z ≡ true
before_trans [] [] z h k = cc
before_trans [] (y ∷ ys) [] h k = cc
before_trans [] (y ∷ ys) (z ∷ zs) h k = refl
before_trans (x ∷ xs) [] z h k = cc
before_trans (x ∷ xs) (y ∷ ys) [] h k = cc
before_trans (x ∷ xs) (y ∷ ys) (z ∷ zs) h k = ground (arith, h, k, before_trans xs ys zs)

before_total : (x y : List ℕ) → before x y ≡ false → bytes_eq x y ≡ false → before y x ≡ true
before_total [] [] h k = cc
before_total [] (y ∷ ys) h k = cc
before_total (x ∷ xs) [] h k = refl
before_total (x ∷ xs) (y ∷ ys) h k = ground (arith, h, k, before_total xs ys)

weight-insert :
    (f : List ℕ × ℕ → ℕ) (e : List ℕ × ℕ) (es : Entries)
    → weight f (insert e es) ≡ f e + weight f es
weight-insert f e [] = refl
weight-insert f e (x ∷ xs) = ground (arith, weight-insert f e xs)

weight-append :
    (f : List ℕ × ℕ → ℕ) (xs ys : Entries) → weight f (xs ++ ys) ≡ weight f xs + weight f ys
weight-append f [] ys = omega arith
weight-append f (x ∷ xs) ys = omega (arith, weight-append f xs ys)

all-insert :
    (p : List ℕ × ℕ → Bool) (e : List ℕ × ℕ) (es : Entries)
    → p e ≡ true
    → all p es ≡ true
    → all p (insert e es) ≡ true
all-insert p e [] h k = ground (arith, h)
all-insert p e (x ∷ xs) h k = ground (arith, h, k, all-insert p e xs)

all-before :
    (k : List ℕ) (e : List ℕ × ℕ) (es : Entries)
    → before k e.0 ≡ true
    → all (λ f. before e.0 f.0) es ≡ true
    → all (λ f. before k f.0) es ≡ true
all-before k e [] h a = refl
all-before k e (x ∷ xs) h a =
    let here = before_trans k e.0 x.0 h (ground (arith, a)) in
    let later = all-before k e xs h (ground (arith, a)) in rw (here, later) refl

insert-is_sorted :
    (e : List ℕ × ℕ) (es : Entries)
    → contains_key e.0 es ≡ false
    → is_sorted es ≡ true
    → is_sorted (insert e es) ≡ true
insert-is_sorted e [] h s = refl
insert-is_sorted e (x ∷ xs) h s = elim (Bool-cases (before e.0 x.0)) [
  | inl b ↦ let later = all-before e.0 x xs b (ground (arith, s)) in ground (arith, b, later, s)
  | inr b ↦
      let after = before_total e.0 x.0 b (ground (arith, h)) in
      let first = all-insert (λ f. before x.0 f.0) e xs after (ground (arith, s)) in
      let rest = insert-is_sorted e xs (ground (arith, h)) (ground (arith, s)) in
      rw (b, first, rest) refl
]

-- What a step adds: the files, once each, and the order is kept.
abbrev Adds : Entries → Entries → Entries → Type 0
Adds before_it files after_it =
    (is_sorted before_it ≡ true → is_sorted after_it ≡ true)
    × ((f : List ℕ × ℕ → ℕ) → weight f after_it ≡ weight f before_it + weight f files)

Adds-none : (es : Entries) → Adds es [] es
Adds-none es = (λ s. s, λ f. omega arith)

Adds-append : (a b c fs gs : Entries) → Adds a fs b → Adds b gs c → Adds a (fs ++ gs) c
Adds-append a b c fs gs (s, w) (t, v) =
    (λ h. t (s h), λ f. omega (arith, w f, v f, weight-append f fs gs))

insert_entry-Adds :
    (es : Entries) (key : List ℕ) (path : ℕ) (out : Entries)
    → insert_entry es key path ≡ ok out
    → Adds es ((key, path) ∷ []) out
unfolding insert_entry
insert_entry-Adds es key path out h =
    let (fresh, made) = ensure-next (not (contains_key key es)) duplicate_entry _ h in
    let same : insert (key, path) es ≡ out = cc in
    subst (λ o. Adds es ((key, path) ∷ []) o) same
      (
        insert-is_sorted (key, path) es (ground (arith, fresh)),
        λ f. omega (arith, weight-insert f (key, path) es),
      )

ok_none : {es out : Entries} → ◌≡◌ {A = Result Error Entries} (ok es) (ok out) → Adds es [] out
ok_none {es = es} h = subst (Adds es []) (cc) (Adds-none es)

mutual
  unfolding collect_dir files_in

  collect_dir-Adds :
      (cs : Children) (path : List ℕ) (es out : Entries)
      → collect_dir cs path es ≡ ok out
      → Adds es (files_in cs path) out
  collect_dir-Adds no_more path es out h = ok_none h
  collect_dir-Adds (child none node rest) path es out h = cc
  collect_dir-Adds (child (some name) node rest) path es out h =
      let (next, first, later) = >>=-ok (collect_node node (path ++ b'/' ∷ name) es) _ h in
      Adds-append es next out _ _ (collect_node-Adds node (path ++ b'/' ∷ name) es next first)
        (collect_dir-Adds rest path next out later)

  collect_node-Adds :
      (node : Node) (key : List ℕ) (es out : Entries)
      → collect_node node key es ≡ ok out
      → Adds es (files_at node key) out
  collect_node-Adds (file path) key es out h = insert_entry-Adds es key path out h
  collect_node-Adds (folder cs) key es out h = collect_dir-Adds cs key es out h
  collect_node-Adds closed_folder key es out h = cc
  collect_node-Adds (link_to_file path) key es out h = insert_entry-Adds es key path out h
  collect_node-Adds link_to_folder key es out h = ok_none h
  collect_node-Adds broken_link key es out h = ok_none h
  collect_node-Adds special key es out h = ok_none h
  collect_node-Adds missing key es out h = cc

abbrev entries_or : Result Error Planned → Entries → Entries
entries_or (ok p) d = p.entries
entries_or (err e) d = d

plan_file-Adds :
    (name : Option (List ℕ)) (path : ℕ) (node : Node) (p out : Planned)
    → ((key : List ℕ) → files_at node key ≡ (key, path) ∷ [])
    → plan_file name path p ≡ ok out
    → Adds p.entries (files_of_input name node) out.entries
plan_file-Adds none path node p out same h = cc
plan_file-Adds (some key) path node p out same h =
    let (next, inserted, made) = >>=-ok (insert_entry p.entries key path) _ h in
    let ends : next ≡ out.entries = ap (λ r. entries_or r next) made in
    subst (λ fs. Adds p.entries fs out.entries) (sym (same key))
      (subst (Adds p.entries ((key, path) ∷ [])) ends
        (insert_entry-Adds p.entries key path next inserted))

plan_folder-Adds :
    (name : Option (List ℕ)) (cs : Children) (p out : Planned)
    → plan_folder name cs p ≡ ok out
    → Adds p.entries (files_of_input name (folder cs)) out.entries
unfolding files_in
plan_folder-Adds none cs p out h = cc
plan_folder-Adds (some key) cs p out h =
    let (next, collected, made) = >>=-ok (collect_dir cs key p.entries) _ h in
    let ends : next ≡ out.entries = ap (λ r. entries_or r next) made in
    subst (Adds p.entries (files_in cs key)) ends (collect_dir-Adds cs key p.entries next collected)

closed-refused :
    (name : Option (List ℕ)) (p out : Planned) → plan_input name closed_folder p ≡ ok out → ⊥
closed-refused none p out h = cc
closed-refused (some key) p out h = cc

plan_input-Adds :
    (name : Option (List ℕ)) (node : Node) (p out : Planned)
    → plan_input name node p ≡ ok out
    → Adds p.entries (files_of_input name node) out.entries
unfolding files_at
plan_input-Adds name (file path) p out h =
    plan_file-Adds name path (file path) p out (λ key. refl) h
plan_input-Adds name (folder cs) p out h = plan_folder-Adds name cs p out h
plan_input-Adds name closed_folder p out h = absurd (closed-refused name p out h)
plan_input-Adds name (link_to_file path) p out h =
    plan_file-Adds name path (link_to_file path) p out (λ key. refl) h
plan_input-Adds name link_to_folder p out h = cc
plan_input-Adds name broken_link p out h = cc
plan_input-Adds name special p out h = cc
plan_input-Adds name missing p out h = cc

plan_inputs-Adds :
    (inputs : List Input) (p out : Planned)
    → plan_inputs inputs p ≡ ok out
    → Adds p.entries (files_of inputs) out.entries
unfolding plan_inputs
plan_inputs-Adds [] p out h =
    let same : p ≡ out = cc in
    subst (λ (o : Planned). Adds p.entries [] o.entries) same (Adds-none p.entries)
plan_inputs-Adds (input ∷ inputs) p out h =
    let (next, first, later) = >>=-ok (plan_input input.name input.node p) _ h in
    Adds-append p.entries next.entries out.entries (files_of_input input.name input.node)
      (files_of inputs) (plan_input-Adds input.name input.node p next first)
      (plan_inputs-Adds inputs next out later)

abbrev planned_or : Result Error (Entries × List ℕ) → Entries → Entries
planned_or (ok (entries, name)) d = entries
planned_or (err e) d = d

pub zero_add : (n : ℕ) → 0 + n ≡ n
zero_add n = omega arith

-- A plan that is made has every file of the selection under its key, links to files among them, as
-- often as the selection has it and nothing else, in the order of the keys, none twice and one at least.
pub plan_entries-files_of :
    (inputs : List Input) (stamp : List ℕ) (entries : Entries) (name : List ℕ)
    → plan_entries inputs stamp ≡ ok (entries, name)
    → (is_sorted entries ≡ true)
      × ((f : List ℕ × ℕ → ℕ) → weight f entries ≡ weight f (files_of inputs))
      × (is_empty entries ≡ false)
unfolding plan_entries
plan_entries-files_of inputs stamp entries name h =
    let begun : Planned = record { entries = []; folder_names = []; file_count = 0 } in
    let (p, planned, a) = >>=-ok (plan_inputs inputs begun) _ h in
    let (filled, made) = ensure-next (not (is_empty p.entries)) no_files _ a in
    let same : p.entries ≡ entries = ap (λ r. planned_or r []) made in
    let (sorted, weights) = plan_inputs-Adds inputs begun p planned in
    (
      ap is_sorted (sym same) ∙ sorted refl,
      λ f. ap (weight f) (sym same) ∙ weights f ∙ zero_add (weight f (files_of inputs)),
      ap is_empty (sym same) ∙ ground (arith, filled),
    )
