-- ===== src/Z85/RoundTrip.antt =====
-- `decode` of z85.rs undoes `encode`, whatever the length of the data.
use ptransfer_cli.Common.{
  ℕ, suc, ◌+◌, ◌*◌, ◌/◌, ◌%◌, ◌≤◌, ◌≡◌, refl, sym, ap, ◌∙◌, List, [], ◌∷◌, ◌++◌, map, length, take,
  length-take, append-nil, chunks, chunks_step, chunks_nil, chunks_single, All, ok, ◌==◌,
  if◌then◌else◌, arith,
}
use ptransfer_cli.Common.Bytes.{IsByte, from_be32}
use ptransfer_cli.Z85.{
  group_word, encode_group, encode_groups, encode, decode_group, decode_groups, decode,
}
use ptransfer_cli.Z85.Groups.{
  letter, digits5, encode_group-word, decode_group-letters, one_word, two_words, three_words,
  four_words, digits5-horner, digits5-cut, digits5-IsDigit, be32_leading,
}

module _ (a : ℕ) (ha : IsByte a) where
  decode_group-one : decode_group (encode_group (a ∷ [])) ≡ ok (a ∷ [])
  decode_group-one =
      let w : ℕ = from_be32 a 0 0 0 in
      let cut = digits5-cut w (omega arith) in
      rw (encode_group-word (a ∷ []) w (one_word a ha)) (
        decode_group-letters (take 2 (digits5 w)) (digits5-IsDigit w 2) (omega arith)
        ∙ ap ok (
            (be32_leading a 0 0 0 _ ha (omega arith) (omega arith) (omega arith) cut.4).3
              (omega arith)))

module _ (a b : ℕ) (ha : IsByte a) (hb : IsByte b) where
  decode_group-two : decode_group (encode_group (a ∷ b ∷ [])) ≡ ok (a ∷ b ∷ [])
  decode_group-two =
      let w : ℕ = from_be32 a b 0 0 in
      let cut = digits5-cut w (omega arith) in
      rw (encode_group-word (a ∷ b ∷ []) w (two_words a b ha hb)) (
        decode_group-letters (take 3 (digits5 w)) (digits5-IsDigit w 3) (omega arith)
        ∙ ap ok ((be32_leading a b 0 0 _ ha hb (omega arith) (omega arith) cut.2).2 (omega arith)))

module _ (a b c : ℕ) (ha : IsByte a) (hb : IsByte b) (hc : IsByte c) where
  decode_group-three : decode_group (encode_group (a ∷ b ∷ c ∷ [])) ≡ ok (a ∷ b ∷ c ∷ [])
  decode_group-three =
      let w : ℕ = from_be32 a b c 0 in
      let cut = digits5-cut w (omega arith) in
      rw (encode_group-word (a ∷ b ∷ c ∷ []) w (three_words a b c ha hb hc)) (
        decode_group-letters (take 4 (digits5 w)) (digits5-IsDigit w 4) (omega arith)
        ∙ ap ok ((be32_leading a b c 0 _ ha hb hc (omega arith) cut.0).1 (omega arith)))

module _ (a b c d : ℕ) (ha : IsByte a) (hb : IsByte b) (hc : IsByte c) (hd : IsByte d) where
  encode_group-four : encode_group (a ∷ b ∷ c ∷ d ∷ []) ≡ map letter (digits5 (from_be32 a b c d))
  encode_group-four =
      encode_group-word (a ∷ b ∷ c ∷ d ∷ []) (from_be32 a b c d) (four_words a b c d ha hb hc hd)

  decode_group-four :
      decode_group (map letter (digits5 (from_be32 a b c d))) ≡ ok (a ∷ b ∷ c ∷ d ∷ [])
  decode_group-four =
      let w : ℕ = from_be32 a b c d in
      let same = digits5-horner w (omega arith) in
      decode_group-letters (digits5 w) (digits5-IsDigit w 5) (omega arith)
      ∙ ap ok ((be32_leading a b c d _ ha hb hc hd (omega arith)).0 (omega arith))

-- Four bytes more are five characters more.
encode_groups-four :
    (a b c d : ℕ) (rest : List ℕ) (ha : IsByte a) (hb : IsByte b) (hc : IsByte c) (hd : IsByte d)
    → encode (a ∷ b ∷ c ∷ d ∷ rest) ≡ map letter (digits5 (from_be32 a b c d)) ++ encode rest
unfolding encode encode_groups
encode_groups-four a b c d rest ha hb hc hd =
    rw (chunks_step 3 a (b ∷ c ∷ d ∷ rest), encode_group-four a b c d ha hb hc hd)

decode_groups_cons :
    (group word : List ℕ) (groups : List (List ℕ)) (rest : List ℕ)
    → decode_group group ≡ ok word
    → decode_groups groups ≡ ok rest
    → decode_groups (group ∷ groups) ≡ ok (word ++ rest)
unfolding decode_groups
decode_groups_cons group word groups rest e f = rw (e, f)

abbrev Decodes : List ℕ → List ℕ → Type 0
Decodes text bytes = decode_groups (chunks 5 text) ≡ ok bytes

Decodes-short :
    (group : List ℕ) (x : ℕ) (xs : List ℕ)
    → encode_group group ≡ x ∷ xs
    → length xs ≤ 4
    → decode_group (encode_group group) ≡ ok group
    → Decodes (encode_group group ++ []) group
Decodes-short group x xs e short d =
    ap (λ t. decode_groups (chunks 5 t)) (append-nil (encode_group group) ∙ e)
    ∙ ap decode_groups (chunks_single 4 x xs short)
    ∙ decode_groups_cons (x ∷ xs) group [] [] (ap decode_group (sym e) ∙ d)
        (unfold decode_groups in refl)
    ∙ ap ok (append-nil group)

encode_short : (x : ℕ) (xs : List ℕ) → length xs ≤ 3 → encode (x ∷ xs) ≡ encode_group (x ∷ xs) ++ []
unfolding encode encode_groups
encode_short x xs h = rw (chunks_single 3 x xs h)

encode_nil : encode [] ≡ []
unfolding encode encode_groups
encode_nil = rw chunks_nil

Decodes-encode : (bytes : List ℕ) → All IsByte bytes → Decodes (encode bytes) bytes
Decodes-encode [] h = rw (encode_nil, chunks_nil) (unfold decode_groups in refl)
Decodes-encode (a ∷ []) (ha, _) =
    ap (λ t. decode_groups (chunks 5 t)) (encode_short a [] (omega arith))
    ∙ Decodes-short _ _ _ (encode_group-word (a ∷ []) _ (one_word a ha)) (omega arith)
        (decode_group-one a ha)
Decodes-encode (a ∷ b ∷ []) (ha, (hb, _)) =
    ap (λ t. decode_groups (chunks 5 t)) (encode_short a (b ∷ []) (omega arith))
    ∙ Decodes-short _ _ _ (encode_group-word (a ∷ b ∷ []) _ (two_words a b ha hb)) (omega arith)
        (decode_group-two a b ha hb)
Decodes-encode (a ∷ b ∷ c ∷ []) (ha, (hb, (hc, _))) =
    ap (λ t. decode_groups (chunks 5 t)) (encode_short a (b ∷ c ∷ []) (omega arith))
    ∙ Decodes-short _ _ _ (encode_group-word (a ∷ b ∷ c ∷ []) _ (three_words a b c ha hb hc))
        (omega arith) (decode_group-three a b c ha hb hc)
Decodes-encode (a ∷ b ∷ c ∷ d ∷ rest) (ha, (hb, (hc, (hd, more)))) =
    ap (λ t. decode_groups (chunks 5 t)) (encode_groups-four a b c d rest ha hb hc hd)
    ∙ ap decode_groups (chunks_step 4 _ _)
    ∙ decode_groups_cons _ (a ∷ b ∷ c ∷ d ∷ []) _ rest (decode_group-four a b c d ha hb hc hd)
        (Decodes-encode rest more)

-- The length of the text for data of `n` bytes.
abbrev pub encoded_length : ℕ → ℕ
encoded_length n = n / 4 * 5 + (if n % 4 == 0 then 0 else n % 4 + 1)

length-group :
    (x : ℕ) (xs : List ℕ) (w : ℕ)
    → length xs ≤ 2
    → group_word (x ∷ xs) 4 0 0 ≡ w
    → length (encode (x ∷ xs)) ≡ length xs + 2
length-group x xs w h e =
    let n : ℕ = if suc (length xs) == 4 then 5 else suc (length xs) + 1 in
    ap length (encode_short x xs (omega arith) ∙ append-nil (encode_group (x ∷ xs)))
    ∙ ap length (encode_group-word (x ∷ xs) w e)
    ∙ ground (arith, length-take n (map letter (digits5 w)))

-- The text of `n` bytes has five characters for each four of them, and one more than the bytes of a
-- short last group.
pub length-encode :
    (bytes : List ℕ) → All IsByte bytes → length (encode bytes) ≡ encoded_length (length bytes)
length-encode [] h = rw encode_nil
length-encode (a ∷ []) (ha, _) = length-group a [] _ (omega arith) (one_word a ha)
length-encode (a ∷ b ∷ []) (ha, (hb, _)) =
    length-group a (b ∷ []) _ (omega arith) (two_words a b ha hb)
length-encode (a ∷ b ∷ c ∷ []) (ha, (hb, (hc, _))) =
    length-group a (b ∷ c ∷ []) _ (omega arith) (three_words a b c ha hb hc)
length-encode (a ∷ b ∷ c ∷ d ∷ rest) (ha, (hb, (hc, (hd, more)))) =
    rw (encode_groups-four a b c d rest ha hb hc hd) (ground (arith, length-encode rest more))

-- Decoding the encoding of a byte string of any length returns the byte string.
pub decode-encode : (bytes : List ℕ) → All IsByte bytes → decode (encode bytes) ≡ ok bytes
unfolding decode
decode-encode bytes h = ground (arith, length-encode bytes h, Decodes-encode bytes h)
