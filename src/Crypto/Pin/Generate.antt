-- ===== src/Crypto/Pin/Generate.antt =====
-- A generated PIN is one.
use ptransfer_cli.Common.{
  ℕ, ◌+◌, ◌-◌, ◌%◌, ◌≤◌, ◌<◌, ◌≡◌, refl, ap, ◌∙◌, List, [], ◌∷◌, ◌++◌, some, true, false,
  Bool-cases, ◌⊎◌, inl, inr, map, ◌==◌, ==_iff, if◌then◌else◌, ltb, ltb→lt, length, length-append,
  get_or, all, all-append, ok, arith,
}
use ptransfer_cli.Crypto.Pin.{
  PinKind, standard, anonymous, pin_charset, in_charset, compute_checksum, kind_of_length,
  classify_pin, length_of, draw_from, draw_all, generate_pin,
}
use ptransfer_cli.Crypto.Pin.Checksum.{position-char_at, compute_checksum-known}
use ptransfer_cli.Crypto.Pin.Typos.{classify_pin-snoc, verdict}

-- The bytes of the buffers that give a character.
abbrev pub accepted : List ℕ → ℕ
accepted [] = 0
accepted (byte ∷ buf) = (if ltb byte 220 then 1 else 0) + accepted buf

abbrev pub total_accepted : List (List ℕ) → ℕ
total_accepted [] = 0
total_accepted (buf ∷ bufs) = accepted buf + total_accepted bufs

-- Characters drawn so far: of the alphabet, and no more than wanted.
abbrev Drawn : ℕ → List ℕ → Type 0
Drawn data_len chars = (all in_charset chars ≡ true) × (length chars ≤ data_len)

drawn_char : (byte : ℕ) → in_charset (get_or pin_charset (byte % 55) 0) ≡ true
drawn_char byte = rw (position-char_at (byte % 55) (omega arith)) refl

more-Drawn :
    (data_len byte : ℕ) (chars : List ℕ)
    → length chars < data_len
    → Drawn data_len chars
    → Drawn data_len (chars ++ get_or pin_charset (byte % 55) 0 ∷ [])
more-Drawn data_len byte chars lt (known, short) = (
  ground (
    arith,
    known,
    drawn_char byte,
    all-append in_charset chars (get_or pin_charset (byte % 55) 0 ∷ []),
  ),
  omega (arith, length-append chars (get_or pin_charset (byte % 55) 0 ∷ [])),
)

-- One buffer keeps what is drawn, and draws as many characters as it has bytes for or are wanted.
draw_from-Drawn :
    (data_len : ℕ) (chars buf : List ℕ)
    → length chars < data_len
    → Drawn data_len chars
    → Drawn data_len (draw_from data_len chars buf)
      × ((length (draw_from data_len chars buf) ≡ data_len)
          ⊎ (length (draw_from data_len chars buf) ≡ length chars + accepted buf))
unfolding draw_from
draw_from-Drawn data_len chars [] lt d = (d, inr (omega arith))
draw_from-Drawn data_len chars (byte ∷ buf) lt d = elim (Bool-cases (ltb byte 220)) [
  | inl e ↦
      let more = chars ++ get_or pin_charset (byte % 55) 0 ∷ [] in
      let d' = more-Drawn data_len byte chars lt d in
      let len : length more ≡ length chars + 1 =
        omega (arith, length-append chars (get_or pin_charset (byte % 55) 0 ∷ [])) in
      elim (Bool-cases (length more == data_len)) [
        | inl f ↦ rw (e, f) (d', inl ((==_iff (length more) data_len).0 f))
        | inr f ↦
            let room : length more < data_len = ground (arith, f, lt, len) in
            let (kept, count) = draw_from-Drawn data_len more buf room d' in
            rw (e, f) (kept, ground (arith, count, len))
      ]
  | inr e ↦
      let (kept, count) = draw_from-Drawn data_len chars buf lt d in
      rw e (kept, ground (arith, count))
]

draw_all-Drawn :
    (data_len : ℕ) (chars : List ℕ) (bufs : List (List ℕ))
    → Drawn data_len chars
    → data_len ≤ length chars + total_accepted bufs
    → (out : List ℕ) × (draw_all data_len chars (map some bufs) ≡ ok out)
      × (all in_charset out ≡ true)
      × (length out ≡ data_len)
unfolding draw_all
draw_all-Drawn data_len chars [] (known, short) h =
    let full : ltb (length chars) data_len ≡ false = ground (arith, h) in
    (chars, rw full refl, known, omega (arith, short))
draw_all-Drawn data_len chars (buf ∷ bufs) (known, short) h =
    elim (Bool-cases (ltb (length chars) data_len)) [
      | inl e ↦
          let lt = ltb→lt (length chars) data_len e in
          let (kept, count) = draw_from-Drawn data_len chars buf lt (known, short) in
          let enough : data_len ≤ length (draw_from data_len chars buf) + total_accepted bufs =
            ground (arith, count, h) in
          let (out, done, known_out, len_out) =
            draw_all-Drawn data_len (draw_from data_len chars buf) bufs kept enough in
          (out, rw e done, known_out, len_out)
      | inr e ↦ (chars, rw e refl, known, ground (arith, e, short))
    ]

generated :
    (kind : PinKind) (chars : List ℕ)
    → all in_charset chars ≡ true
    → length chars ≡ length_of kind - 1
    → classify_pin (chars ++ compute_checksum chars ∷ []) ≡ some kind
generated kind chars known len =
    let k = compute_checksum chars in
    let size : length (chars ++ k ∷ []) ≡ length chars + 1 =
      omega (arith, length-append chars (k ∷ [])) in
    let whole : all in_charset (chars ++ k ∷ []) ≡ true =
      ground
        (arith, known, all-append in_charset chars (k ∷ []), compute_checksum-known chars known) in
    let checked : (k == k) ≡ true = ground arith in
    classify_pin-snoc chars k
    ∙ rw (whole, checked)
        (ap (λ o. verdict o true true) (ap kind_of_length size ∙ of_kind kind len))
  where
    of_kind :
        (kind : PinKind)
        → length chars ≡ length_of kind - 1
        → kind_of_length (length chars + 1) ≡ some kind
    of_kind standard e = ground (arith, e)
    of_kind anonymous e = ground (arith, e)

-- Where the random source gives enough bytes below 220, a PIN of the kind asked for is generated, and
-- it is one.
pub classify_pin-generate_pin :
    (kind : PinKind) (bufs : List (List ℕ))
    → length_of kind - 1 ≤ total_accepted bufs
    → (pin : List ℕ) × (generate_pin kind (map some bufs) ≡ ok pin) × (classify_pin pin ≡ some kind)
unfolding generate_pin
classify_pin-generate_pin kind bufs h =
    let (chars, drawn, known, len) =
      draw_all-Drawn (length_of kind - 1) [] bufs (refl, omega arith) (omega (arith, h)) in
    (chars ++ compute_checksum chars ∷ [], rw drawn refl, generated kind chars known len)
