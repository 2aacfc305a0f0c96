-- ===== src/Crypto/Pin/Typos.antt =====
-- A PIN with one wrong character, and one with a character too many or too few.
use ptransfer_cli.Common.{
  ℕ, ◌+◌, ◌-◌, ◌%◌, ◌≤◌, ◌<◌, ◌≡◌, ◌≢◌, refl, sym, ap, ◌∙◌, List, [], ◌∷◌, ◌++◌, append_assoc,
  Option, none, some, Bool, true, false, Bool-cases, inl, inr, ◌==◌, ==_iff, if◌then◌else◌, length,
  length-append, take-append, drop-append, all, all-append, arith,
}
use ptransfer_cli.Crypto.Pin.{
  PinKind, compute_checksum, in_charset, kind_of_length, check_pin, classify_pin,
}
use ptransfer_cli.Crypto.Pin.Checksum.{checksum_changed, all_refused}

abbrev pub verdict : Option PinKind → Bool → Bool → Option PinKind
verdict none known checked = none
verdict (some kind) known checked = if known then (if checked then some kind else none) else none

-- A PIN as its data and its checksum character.
pub classify_pin-snoc :
    (chars : List ℕ) (k : ℕ)
    → classify_pin (chars ++ k ∷ [])
      ≡ verdict
          (kind_of_length (length (chars ++ k ∷ [])))
          (all in_charset (chars ++ k ∷ []))
          (compute_checksum chars == k)
unfolding classify_pin
classify_pin-snoc chars k = checked (kind_of_length (length (chars ++ k ∷ [])))
  where
    at : length (chars ++ k ∷ []) - 1 ≡ length chars
    at = omega (arith, length-append chars (k ∷ []))

    checked :
        (o : Option PinKind)
        → check_pin (chars ++ k ∷ []) o
          ≡ verdict o (all in_charset (chars ++ k ∷ [])) (compute_checksum chars == k)
    checked none = unfold check_pin in refl
    checked (some kind) =
        unfold check_pin in
        rw
          (
            at,
            take-append (length chars) chars (k ∷ []) refl,
            drop-append (length chars) chars (k ∷ []) refl,
          )
          refl

verdict-facts :
    (o : Option PinKind) (known checked : Bool) (kind : PinKind)
    → verdict o known checked ≡ some kind
    → (o ≡ some kind) × (known ≡ true) × (checked ≡ true)
verdict-facts none known checked kind h = cc
verdict-facts (some k) true true kind h = (h, refl, refl)
verdict-facts (some k) true false kind h = cc
verdict-facts (some k) false checked kind h = cc

verdict-unknown : (o : Option PinKind) (checked : Bool) → verdict o false checked ≡ none
verdict-unknown none checked = refl
verdict-unknown (some k) checked = refl

verdict-unchecked : (o : Option PinKind) (known : Bool) → verdict o known false ≡ none
verdict-unchecked none known = refl
verdict-unchecked (some k) true = refl
verdict-unchecked (some k) false = refl

kind_of_length-le : (n : ℕ) (kind : PinKind) → kind_of_length n ≡ some kind → n ≤ 16
kind_of_length-le n kind h = ground arith

snoc : (x : ℕ) (xs : List ℕ) → (front : List ℕ) × (last : ℕ) × (x ∷ xs ≡ front ++ last ∷ [])
snoc x [] = ([], x, refl)
snoc x (y ∷ ys) = let (front, last, e) = snoc y ys in (x ∷ front, last, ap (λ t. x ∷ t) e)

==-refused : (a b : ℕ) → a ≢ b → (a == b) ≡ false
==-refused a b h = ground arith

-- One wrong character is refused wherever its position, counted from 1, shares no factor with 55.
pub classify_pin-mistyped :
    (before after : List ℕ) (c c' : ℕ) (kind : PinKind)
    → classify_pin (before ++ c ∷ after) ≡ some kind
    → c ≢ c'
    → ((length before + 1) % 5 == 0) ≡ false
    → ((length before + 1) % 11 == 0) ≡ false
    → classify_pin (before ++ c' ∷ after) ≡ none
classify_pin-mistyped before [] c c' kind h ne h5 h11 =
    let (a, b, checked) = verdict-facts _ _ _ kind (sym (classify_pin-snoc before c) ∙ h) in
    let same = (==_iff (compute_checksum before) c).0 checked in
    let wrong = ==-refused (compute_checksum before) c' (λ e. ne (sym same ∙ e)) in
    classify_pin-snoc before c' ∙ rw wrong (verdict-unchecked _ _)
classify_pin-mistyped before (x ∷ xs) c c' kind h ne h5 h11 =
    let (mid, last, e) = snoc x xs in
    let split : (d : ℕ) → before ++ d ∷ (x ∷ xs) ≡ (before ++ d ∷ mid) ++ last ∷ [] =
      λ d. ap (λ t. before ++ d ∷ t) e ∙ sym (append_assoc before (d ∷ mid) (last ∷ [])) in
    ap classify_pin (split c')
    ∙ classify_pin-snoc (before ++ c' ∷ mid) last
    ∙ refused mid last
        (sym (classify_pin-snoc (before ++ c ∷ mid) last) ∙ ap classify_pin (sym (split c)) ∙ h)
  where
    refused :
        (mid : List ℕ) (last : ℕ)
        → verdict
            (kind_of_length (length ((before ++ c ∷ mid) ++ last ∷ [])))
            (all in_charset ((before ++ c ∷ mid) ++ last ∷ []))
            (compute_checksum (before ++ c ∷ mid) == last)
          ≡ some kind
        → verdict
            (kind_of_length (length ((before ++ c' ∷ mid) ++ last ∷ [])))
            (all in_charset ((before ++ c' ∷ mid) ++ last ∷ []))
            (compute_checksum (before ++ c' ∷ mid) == last)
          ≡ none
    refused mid last v =
        let (kinds, knows, checked) = verdict-facts _ _ _ kind v in
        let long = kind_of_length-le (length ((before ++ c ∷ mid) ++ last ∷ [])) kind kinds in
        let inside : length before + 1 < 17 = omega (
          arith,
          long,
          length-append (before ++ c ∷ mid) (last ∷ []),
          length-append before (c ∷ mid),
        ) in
        let front : all in_charset (before ++ c ∷ mid) ≡ true =
          ground (arith, knows, all-append in_charset (before ++ c ∷ mid) (last ∷ [])) in
        let same = (==_iff (compute_checksum (before ++ c ∷ mid)) last).0 checked in
        elim (Bool-cases (in_charset c')) [
          | inl k ↦
              let wrong =
                ==-refused (compute_checksum (before ++ c' ∷ mid)) last
                  (λ e. checksum_changed before mid c c' inside h5 h11 front k ne (same ∙ sym e)) in
              rw wrong (verdict-unchecked _ _)
          | inr k ↦
              let unknown =
                ap (all in_charset) (append_assoc before (c' ∷ mid) (last ∷ []))
                ∙ all_refused before (mid ++ last ∷ []) c' k in
              rw unknown (verdict-unknown _ _)
        ]
