-- ===== src/Util/Names.antt =====
-- Names that are safe to save under: those of `sanitize_filename`, and those that `unique_path` tries.
use ptransfer_cli.Common.{
  ℕ, ◌≡◌, refl, sym, ap, ap₂, subst, ◌∙◌, List, [], ◌∷◌, ◌++◌, Option, none, some, inl, inr, Bool,
  true, false, Bool-cases, not, ◌&&◌, ◌||◌, if◌then◌else◌, is_empty, all, all-append, arith,
}
use ptransfer_cli.Common.Bytes.{codes, bytes_eq}
use ptransfer_cli.Common.Decimal.{is_digit, decimal, decimal-digits}
use ptransfer_cli.Util.{
  is_separator, is_dot, is_whitespace, last_part, trim_start, trim_end, trim_matches,
  sanitize_filename, split_more, rsplit_dot, stem_of, candidate,
}

abbrev pub is_plain : ℕ → Bool
is_plain c = not (is_separator c)

abbrev pub first_is : (ℕ → Bool) → List ℕ → Bool
first_is test [] = false
first_is test (c ∷ cs) = test c

abbrev pub last_is : (ℕ → Bool) → List ℕ → Bool
last_is test [] = false
last_is test (c ∷ []) = test c
last_is test (c ∷ x ∷ xs) = last_is test (x ∷ xs)

-- A name of one file of the directory: not empty, without a separator, and with no dot at its ends.
abbrev pub IsSafe : List ℕ → Type 0
IsSafe name =
    (is_empty name ≡ false)
    × (all is_plain name ≡ true)
    × (first_is is_dot name ≡ false)
    × (last_is is_dot name ≡ false)

last_part-plain :
    (part cs : List ℕ) → all is_plain part ≡ true → all is_plain (last_part part cs) ≡ true
unfolding last_part
last_part-plain part [] h = h
last_part-plain part (c ∷ cs) h =
    last_part-plain (if is_separator c then [] else part ++ c ∷ []) cs (kept (is_separator c) refl)
  where
    kept : (b : Bool) → is_separator c ≡ b → all is_plain (if b then [] else part ++ c ∷ []) ≡ true
    kept true e = refl
    kept false e = all-append is_plain part (c ∷ []) ∙ rw (h, e) refl

module _ (drops : ℕ → Bool) where
  trim_start-all :
      (p : ℕ → Bool) (xs : List ℕ) → all p xs ≡ true → all p (trim_start drops xs) ≡ true
  unfolding trim_start
  trim_start-all p [] h = h
  trim_start-all p (c ∷ cs) h =
      let later : all p cs ≡ true = ground arith in
      elim (Bool-cases (drops c)) [ inl e ↦ rw e (trim_start-all p cs later) | inr e ↦ rw e h ]

  trim_start-first : (xs : List ℕ) → first_is drops (trim_start drops xs) ≡ false
  unfolding trim_start
  trim_start-first [] = refl
  trim_start-first (c ∷ cs) = elim (Bool-cases (drops c)) [
    | inl e ↦ rw e (trim_start-first cs)
    | inr e ↦ rw e e
  ]

  trim_end-all : (p : ℕ → Bool) (xs : List ℕ) → all p xs ≡ true → all p (trim_end drops xs) ≡ true
  unfolding trim_end
  trim_end-all p [] h = h
  trim_end-all p (c ∷ cs) h =
      let here : p c ≡ true = ground arith in
      let later : all p cs ≡ true = ground arith in
      elim (Bool-cases (is_empty (trim_end drops cs) && drops c)) [
        | inl e ↦ rw e refl
        | inr e ↦ rw (e, here, trim_end-all p cs later) refl
      ]

  trim_end-first :
      (p : ℕ → Bool) (xs : List ℕ) → first_is p xs ≡ false → first_is p (trim_end drops xs) ≡ false
  unfolding trim_end
  trim_end-first p [] h = refl
  trim_end-first p (c ∷ cs) h = elim (Bool-cases (is_empty (trim_end drops cs) && drops c)) [
    | inl e ↦ rw e refl
    | inr e ↦ rw e h
  ]

  last_is-cons :
      (c : ℕ) (rest : List ℕ)
      → (is_empty rest && drops c) ≡ false
      → last_is drops rest ≡ false
      → last_is drops (c ∷ rest) ≡ false
  last_is-cons c [] e h = e
  last_is-cons c (x ∷ xs) e h = h

  trim_end-last : (xs : List ℕ) → last_is drops (trim_end drops xs) ≡ false
  unfolding trim_end
  trim_end-last [] = refl
  trim_end-last (c ∷ cs) = elim (Bool-cases (is_empty (trim_end drops cs) && drops c)) [
    | inl e ↦ rw e refl
    | inr e ↦ rw e (last_is-cons c (trim_end drops cs) e (trim_end-last cs))
  ]

received_bin : IsSafe (codes "received.bin")
received_bin = (refl, refl, refl, refl)

or_received :
    (base : List ℕ) (b b' : Bool)
    → all is_plain base ≡ true
    → first_is is_dot base ≡ false
    → last_is is_dot base ≡ false
    → IsSafe (if is_empty base || b || b' then codes "received.bin" else base)
or_received [] b b' p f l = received_bin
or_received (c ∷ cs) true b' p f l = received_bin
or_received (c ∷ cs) false true p f l = received_bin
or_received (c ∷ cs) false false p f l = (refl, p, f, l)

-- Whatever name a peer gives, what it is reduced to is not empty, has no separator, and neither begins
-- nor ends with a dot.
pub sanitize_filename-IsSafe : (name : List ℕ) → IsSafe (sanitize_filename name)
unfolding sanitize_filename
sanitize_filename-IsSafe name =
    let part = last_part [] name in
    let trimmed = trim_matches is_whitespace part in
    let plain =
      trim_end-all is_whitespace is_plain (trim_start is_whitespace part)
        (trim_start-all is_whitespace is_plain part (last_part-plain [] name refl)) in
    let undotted = trim_start is_dot trimmed in
    let base = trim_matches is_dot trimmed in
    or_received base (bytes_eq base (codes ".")) (bytes_eq base (codes ".."))
      (trim_end-all is_dot is_plain undotted (trim_start-all is_dot is_plain trimmed plain))
      (trim_end-first is_dot is_dot undotted (trim_start-first is_dot trimmed))
      (trim_end-last is_dot undotted)

digits_plain : (cs : List ℕ) → all is_digit cs ≡ true → all is_plain cs ≡ true
digits_plain [] h = refl
digits_plain (c ∷ cs) h =
    let here : is_digit c ≡ true = ground arith in
    let later : all is_digit cs ≡ true = ground arith in
    let plain : is_plain c ≡ true = ground (arith, here) in rw (plain, digits_plain cs later) refl

last_is-append :
    (test : ℕ → Bool) (xs : List ℕ) (y : ℕ) (ys : List ℕ)
    → last_is test (xs ++ y ∷ ys) ≡ last_is test (y ∷ ys)
last_is-append test [] y ys = refl
last_is-append test (x ∷ []) y ys = refl
last_is-append test (x ∷ x' ∷ xs) y ys = last_is-append test (x' ∷ xs) y ys

-- What `rsplit_dot` takes apart.
abbrev if_here : Bool → List ℕ → Option (List ℕ × List ℕ)
if_here b cs = if b then some ([], cs) else none

split_here :
    (b : Bool) (cs : List ℕ) {stem extension : List ℕ}
    → if_here b cs ≡ some (stem, extension)
    → (b ≡ true) × ([] ≡ stem) × (cs ≡ extension)
split_here true cs h = (refl, cc, cc)
split_here false cs h = cc

split_more-joined :
    (c : ℕ) (cs : List ℕ) (rest : Option (List ℕ × List ℕ)) {stem extension : List ℕ}
    → ((s e : List ℕ) → rest ≡ some (s, e) → cs ≡ s ++ b'.' ∷ e)
    → split_more c cs rest ≡ some (stem, extension)
    → c ∷ cs ≡ stem ++ b'.' ∷ extension
split_more-joined c cs none {extension = extension} split h =
    let (dot, before, after) = split_here (is_dot c) cs h in
    let same : c ≡ b'.' = ground (arith, dot) in
    subst (λ s. c ∷ cs ≡ s ++ b'.' ∷ extension) before (ap₂ (λ x y. x ∷ y) same after)
split_more-joined c cs (some (s, e)) split h =
    let before : c ∷ s ≡ _ = cc in
    let after : e ≡ _ = cc in
    ap (λ t. c ∷ t) (split s e refl) ∙ ap₂ (λ x y. x ++ b'.' ∷ y) before after

rsplit_dot-joined :
    (name : List ℕ) {stem extension : List ℕ}
    → rsplit_dot name ≡ some (stem, extension)
    → name ≡ stem ++ b'.' ∷ extension
unfolding rsplit_dot
rsplit_dot-joined [] h = cc
rsplit_dot-joined (c ∷ cs) h =
    split_more-joined c cs (rsplit_dot cs) (λ s e r. rsplit_dot-joined cs r) h

-- A numbered name from a stem and an extension, which is empty or begins with a dot.
abbrev numbered : List ℕ → ℕ → List ℕ → List ℕ
numbered stem n extension = stem ++ (codes " (" ++ (decimal n ++ (codes ")" ++ extension)))

numbered-IsSafe :
    (c : ℕ) (stem : List ℕ) (n : ℕ) (extension : List ℕ)
    → is_dot c ≡ false
    → all is_plain (c ∷ stem) ≡ true
    → all is_plain extension ≡ true
    → last_is is_dot (b')' ∷ extension) ≡ false
    → IsSafe (numbered (c ∷ stem) n extension)
numbered-IsSafe c stem n extension first plain plain' last = (
  refl,
  all-append is_plain (c ∷ stem) (32 ∷ 40 ∷ (decimal n ++ 41 ∷ extension))
      ∙ rw
          (
            plain,
            all-append is_plain (decimal n) (41 ∷ extension),
            digits_plain (decimal n) (decimal-digits n),
            plain',
          )
          refl,
  first,
  last_is-append is_dot (c ∷ stem) 32 (40 ∷ (decimal n ++ 41 ∷ extension))
      ∙ last_is-append is_dot (40 ∷ decimal n) 41 extension
      ∙ last,
)

-- The parts of a safe name make safe numbered names.
stem_of-IsSafe :
    (name : List ℕ) (n : ℕ) (parts : Option (List ℕ × List ℕ))
    → ((s e : List ℕ) → parts ≡ some (s, e) → name ≡ s ++ b'.' ∷ e)
    → IsSafe name
    → IsSafe (numbered (stem_of name parts).0 n (stem_of name parts).1)
stem_of-IsSafe [] n parts split (full, plain, first, last) = cc
stem_of-IsSafe (c ∷ cs) n none split (full, plain, first, last) =
    numbered-IsSafe c cs n [] first plain refl refl
stem_of-IsSafe (c ∷ cs) n (some ([], extension)) split (full, plain, first, last) =
    numbered-IsSafe c cs n [] first plain refl refl
stem_of-IsSafe (c ∷ cs) n (some (x ∷ stem, extension)) split (full, plain, first, last) =
    let joined = split (x ∷ stem) extension refl in
    let plain' : all is_plain (x ∷ stem) && all is_plain (b'.' ∷ extension) ≡ true =
      sym (all-append is_plain (x ∷ stem) (b'.' ∷ extension))
      ∙ sym (ap (all is_plain) joined)
      ∙ plain in
    let first' : is_dot x ≡ false = sym (ap (first_is is_dot) joined) ∙ first in
    let last' : last_is is_dot (b'.' ∷ extension) ≡ false =
      sym (last_is-append is_dot (x ∷ stem) b'.' extension)
      ∙ sym (ap (last_is is_dot) joined)
      ∙ last in
    numbered-IsSafe x stem n (b'.' ∷ extension) first' (ground (arith, plain'))
      (ground (arith, plain')) last'

pub candidate-IsSafe : (name : List ℕ) (n : ℕ) → IsSafe name → IsSafe (candidate name n)
unfolding candidate
candidate-IsSafe name n safe =
    stem_of-IsSafe name n (rsplit_dot name) (λ s e h. rsplit_dot-joined name h) safe
