-- ===== src/Crypto/Spake2/Transcript.antt =====
-- The transcript of spake2.rs frames its fields: none can shift bytes into a neighbour.
use ptransfer_cli.Common.{
  ℕ, zero, suc, ◌/◌, ◌%◌, ◌^◌, ◌<◌, ◌≡◌, refl, sym, ap, ap₂, ◌∙◌, List, [], ◌∷◌, ◌++◌, length, take,
  drop, All, take-append, drop-append, append_assoc, append-nil, arith,
}
use ptransfer_cli.Crypto.Spake2.{
  PakeIdentities, pake_context, le_bytes, push_framed, absorb, transcript, transcript_fields,
}

-- Whether a number has at most so many bytes.
abbrev IsWithin : ℕ → ℕ → Type 0
IsWithin zero n = n ≡ 0
IsWithin (suc k) n = IsWithin k (n / 256)

le_bytes_injective : (k m n : ℕ) → IsWithin k m → IsWithin k n → le_bytes k m ≡ le_bytes k n → m ≡ n
le_bytes_injective zero m n hm hn e = hm ∙ sym hn
le_bytes_injective (suc k) m n hm hn e =
    let low : m % 256 ≡ n % 256 = cc in
    let high : m / 256 ≡ n / 256 = le_bytes_injective k (m / 256) (n / 256) hm hn (cc) in
    omega (arith, low, high)

length-le_bytes : (k n : ℕ) → length (le_bytes k n) ≡ k
length-le_bytes zero n = refl
length-le_bytes (suc k) n = ap suc (length-le_bytes k (n / 256))

IsWithin-u64 : (n : ℕ) → n < 2 ^ 64 → IsWithin 8 n
IsWithin-u64 n h = omega arith

append_injective {ℓ} :
    {A : Type ℓ} (xs xs' ys ys' : List A)
    → length xs ≡ length xs'
    → xs ++ ys ≡ xs' ++ ys'
    → (xs ≡ xs') × (ys ≡ ys')
append_injective xs xs' ys ys' h e = (
  sym (take-append (length xs) xs ys refl)
      ∙ ap (take (length xs)) e
      ∙ take-append (length xs) xs' ys' (sym h),
  sym (drop-append (length xs) xs ys refl)
      ∙ ap (drop (length xs)) e
      ∙ drop-append (length xs) xs' ys' (sym h),
)

-- The fields behind their lengths, one after the other.
abbrev frames : List (List ℕ) → List ℕ
frames [] = []
frames (field ∷ fields) = le_bytes 8 (length field) ++ (field ++ frames fields)

absorb-frames : (out : List ℕ) (fields : List (List ℕ)) → absorb out fields ≡ out ++ frames fields
absorb-frames out [] = sym (append-nil out)
absorb-frames out (field ∷ fields) =
    absorb-frames (push_framed out field) fields
    ∙ append_assoc out (le_bytes 8 (length field) ++ field) (frames fields)
    ∙ ap (λ t. out ++ t) (append_assoc (le_bytes 8 (length field)) field (frames fields))

frames_injective :
    (fs gs : List (List ℕ))
    → length fs ≡ length gs
    → All (λ f. length f < 2 ^ 64) fs
    → All (λ f. length f < 2 ^ 64) gs
    → frames fs ≡ frames gs
    → fs ≡ gs
frames_injective [] [] h hf hg e = refl
frames_injective [] (g ∷ gs) h hf hg e = absurd (omega arith)
frames_injective (f ∷ fs) [] h hf hg e = absurd (omega arith)
frames_injective (f ∷ fs) (g ∷ gs) h hf hg e =
    let framed = append_injective (le_bytes 8 (length f)) (le_bytes 8 (length g)) _ _ refl e in
    let sizes =
      le_bytes_injective 8 (length f) (length g) (IsWithin-u64 (length f) hf.0)
        (IsWithin-u64 (length g) hg.0) framed.0 in
    let split = append_injective f g (frames fs) (frames gs) sizes framed.1 in
    ap₂ (λ x xs. x ∷ xs) split.0 (frames_injective fs gs (omega (arith, h)) hf.1 hg.1 split.1)

-- Equal transcripts have the same identities, elements, shared element and secret, where no field has
-- 2^64 bytes or more.
pub transcript_injective :
    (ids ids' : PakeIdentities) (pa pa' pb pb' shared shared' secret secret' : List ℕ)
    → All (λ f. length f < 2 ^ 64) (transcript_fields ids pa pb shared secret)
    → All (λ f. length f < 2 ^ 64) (transcript_fields ids' pa' pb' shared' secret')
    → transcript ids pa pb shared secret ≡ transcript ids' pa' pb' shared' secret'
    → (ids.transfer_id ≡ ids'.transfer_id)
      × (ids.sender_pubkey ≡ ids'.sender_pubkey)
      × (ids.receiver_pubkey ≡ ids'.receiver_pubkey)
      × (pa ≡ pa')
      × (pb ≡ pb')
      × (shared ≡ shared')
      × (secret ≡ secret')
unfolding transcript
transcript_injective ids ids' pa pa' pb pb' shared shared' secret secret' h h' e =
    let fields = transcript_fields ids pa pb shared secret in
    let fields' = transcript_fields ids' pa' pb' shared' secret' in
    let same : fields ≡ fields' =
      frames_injective fields fields' refl h h'
        (sym (absorb-frames [] fields) ∙ e ∙ absorb-frames [] fields') in
    let context : pake_context ++ b'|' ∷ ids.transfer_id ≡ pake_context ++ b'|' ∷ ids'.transfer_id =
      cc in
    let named =
      append_injective pake_context pake_context (b'|' ∷ ids.transfer_id) (b'|' ∷ ids'.transfer_id)
        refl context in
    (cc, cc, cc, cc, cc, cc, cc)
