-- ===== src/Code/Payload/Valid.antt =====
-- What a validated payload of payload.rs gives its readers.
use ptransfer_cli.Common.{
  is_some, ℕ, ◌≤◌, ◌≡◌, refl, ap, ◌∙◌, List, [], ◌∷◌, Option, none, some, Bool, true, false, not,
  ◌&&◌, ◌||◌, ◌==◌, length, is_empty, ok, err, ◌>>=◌, ◌>>◌, ensure, ensure-next, ensure-true,
  or_err, or_err-next, and_then, and_then-some, unless-some, some_injective, sym, >>=-ok,
  with_err-ok, >>-ok, if◌then◌else◌, arith, inl, inr, ◌⊎◌,
}
use ptransfer_cli.Common.Int.{ℤ, pos, negsuc}
use ptransfer_cli.NostrFile.Control.Distinct.{is_distinct}
use ptransfer_cli.NostrFile.RelayUrl.{Url, offer_relays, text_len}
use ptransfer_cli.NostrFile.RelayUrl.Offered.{offer_relays_accepts}
use ptransfer_cli.Code.Payload.{
  PayloadKind, offer, answer, SignalingPayload, no_salt, bad_salt, bad_public_key, bad_time,
  offer_with_tag, anon_false, relays_and_anon, no_file_name, no_file_size, no_encoding,
  answer_with_offer_field, no_tag, bad_tag, is_some_and, is_none_or, is_anonymous, is_time,
  is_offer, offer_salt, peer_public_key, max_created_at_ms, fallback_relays, fallback_relays_from,
  decode_answer_confirmation, confirmation_tag, check_offer_relays, validate_offer, validate_answer,
  validate, validate_kind, has_offer_field, to_option, bad_relays, code_salt_len, public_key_len,
}
use ptransfer_cli.Wire.{WireEncoding}

-- The key and the time, on either half of the exchange.
abbrev pub IsStamped : SignalingPayload → Type 0
IsStamped p =
    (peer_public_key p ≡ ok p.public_key)
    × ((ms : ℕ) × (p.created_at ≡ pos ms) × (ms ≤ max_created_at_ms))

some_of {ℓ} : {A : Type ℓ} (o : Option A) → is_some o ≡ true → (a : A) × (o ≡ some a)
some_of none h = cc
some_of (some a) h = (a, refl)

none_of {ℓ} : {A : Type ℓ} (o : Option A) → is_some o ≡ false → o ≡ none
none_of none h = refl
none_of (some a) h = cc

not_empty_of :
    (o : Option (List ℕ))
    → not (is_none_or is_empty o) ≡ true
    → (c : ℕ) × (cs : List ℕ) × (o ≡ some (c ∷ cs))
not_empty_of none h = cc
not_empty_of (some []) h = cc
not_empty_of (some (c ∷ cs)) h = (c, cs, refl)

never_both :
    (relays : Option (List (List ℕ))) (anon : Option Bool)
    → not (is_some relays && is_some anon) ≡ true
    → is_some_and (λ a. a) anon ≡ true
    → relays ≡ none
never_both none anon h a = refl
never_both (some r) none h a = cc
never_both (some r) (some b) h a = cc

carried_salt :
    (p : SignalingPayload) (salt : List ℕ)
    → p.salt ≡ some salt
    → (length salt == 16) ≡ true
    → offer_salt p ≡ ok salt
unfolding offer_salt
carried_salt p salt e h =
    ap (λ o. or_err o no_salt >>= (λ s. ensure (length s == code_salt_len) bad_salt >> ok s)) e
    ∙ ap (λ b. ensure b bad_salt >> ok salt) h

fallback_choice :
    (is_off anon : Bool) (named : Option (List (List ℕ)))
    → is_off ≡ true
    → (if◌then◌else◌ (not is_off || anon) none named ≡ none)
      ⊎ (if◌then◌else◌ (not is_off || anon) none named ≡ named)
fallback_choice true true named e = inl refl
fallback_choice true false named e = inr refl
fallback_choice false anon named e = cc

module _ (parse : List ℕ → Option Url) (decode_base64 : List ℕ → Option (List ℕ)) where
  -- Either no relays are named, or those named are a fallback of 2 to 6 relays, none twice.
  abbrev pub HasFallback : SignalingPayload → Type 0
  HasFallback p =
      (fallback_relays parse p ≡ none)
      ⊎ ((relays : List (List ℕ)) × (fallback_relays parse p ≡ some relays)
          × (is_distinct relays ≡ true)
          × (2 ≤ length relays)
          × (length relays ≤ 6))

  abbrev pub IsReadableOffer : SignalingPayload → Type 0
  IsReadableOffer p =
      ((salt : List ℕ) × (offer_salt p ≡ ok salt) × (length salt ≡ 16))
      × ((c : ℕ) × (cs : List ℕ) × (p.file_name ≡ some (c ∷ cs)))
      × ((size : ℕ) × (p.file_size ≡ some size))
      × ((encoding : WireEncoding) × (p.content_encoding ≡ some encoding))
      × (confirmation_tag decode_base64 p ≡ none)
      × HasFallback p
      × (is_anonymous p ≡ true → p.relays ≡ none)

  abbrev pub IsReadableAnswer : SignalingPayload → Type 0
  IsReadableAnswer p =
      ((tag : List ℕ) × (confirmation_tag decode_base64 p ≡ some tag) × (length tag ≡ 16))
      × (fallback_relays parse p ≡ none)
      × (is_anonymous p ≡ false)
      × (offer_salt p ≡ err no_salt)
      × (p.relays ≡ none)
      × (p.anon ≡ none)
      × (p.file_name ≡ none)
      × (p.file_size ≡ none)
      × (p.content_encoding ≡ none)
      × (p.mime_type ≡ none)

  abbrev pub IsReadableKind : PayloadKind → SignalingPayload → Type 0
  IsReadableKind offer p = IsReadableOffer p
  IsReadableKind answer p = IsReadableAnswer p

  abbrev pub IsReadable : SignalingPayload → Type 0
  IsReadable p = IsStamped p × IsReadableKind p.kind p

  fallback_of :
      (relays : Option (List (List ℕ)))
      → check_offer_relays parse relays ≡ ok tt
      → (relays ≡ none)
        ⊎ ((out : List (List ℕ)) × (and_then relays (λ r. to_option (fallback_relays_from parse r))
              ≡ some out)
            × (is_distinct out ≡ true)
            × (2 ≤ length out)
            × (length out ≤ 6))
  unfolding fallback_relays_from
  fallback_of none h = inl refl
  fallback_of (some relays) h =
      let (out, found, rest) = >>=-ok (fallback_relays_from parse relays) _ h in
      let accepted = with_err-ok (offer_relays parse relays 6 2) bad_relays found in
      let (each, distinct, enough, few) = offer_relays_accepts parse relays 6 2 out accepted in
      inr (out, ap to_option found, distinct, enough, few)

  named_fallback :
      (p : SignalingPayload)
      → p.kind ≡ offer
      → check_offer_relays parse p.relays ≡ ok tt
      → HasFallback p
  unfolding fallback_relays
  named_fallback p k h =
      elim (fallback_choice (is_offer p.kind) (is_anonymous p)
        (and_then p.relays (λ r. to_option (fallback_relays_from parse r))) (ap is_offer k)) [
          | inl e ↦ inl e
          | inr e ↦ elim (fallback_of p.relays h) [
            | inl n ↦
                inl (e ∙ ap (λ o. and_then o (λ r. to_option (fallback_relays_from parse r))) n)
            | inr (out, f, distinct, enough, few) ↦ inr (out, e ∙ f, distinct, enough, few)
          ]
        ]

  validate_offer-IsReadableOffer :
      (p : SignalingPayload) → p.kind ≡ offer → validate_offer parse p ≡ ok tt → IsReadableOffer p
  unfolding validate_offer offer_salt confirmation_tag
  validate_offer-IsReadableOffer p k h =
      let a = ensure-next (not (is_some p.confirm)) offer_with_tag _ h in
      let b = ensure-next (not (is_some_and not p.anon)) anon_false _ a.1 in
      let c = ensure-next (not (is_some p.relays && is_some p.anon)) relays_and_anon _ b.1 in
      let d = >>-ok (check_offer_relays parse p.relays) _ c.1 in
      let (salt, salted, e) = or_err-next p.salt no_salt _ d.1 in
      let f = ensure-next (length salt == 16) bad_salt _ e in
      let g = ensure-next (not (is_none_or is_empty p.file_name)) no_file_name _ f.1 in
      let i = ensure-next (is_some p.file_size) no_file_size _ g.1 in
      let j = ensure-true (is_some p.content_encoding) no_encoding i.1 in
      let no_confirm = none_of p.confirm (ground (arith, a)) in
      (
        (salt, carried_salt p salt salted f.0, ground (arith, f)),
        not_empty_of p.file_name g.0,
        some_of p.file_size i.0,
        some_of p.content_encoding j,
        ap (λ o. and_then o (decode_answer_confirmation decode_base64)) no_confirm,
        named_fallback p k d.0,
        λ anonymous. never_both p.relays p.anon c.0 (ground (arith, anonymous)),
      )

  offer_fields_none :
      (p : SignalingPayload)
      → not (has_offer_field p) ≡ true
      → (p.salt ≡ none)
        × (p.relays ≡ none)
        × (p.anon ≡ none)
        × (p.file_name ≡ none)
        × (p.file_size ≡ none)
        × (p.content_encoding ≡ none)
        × (p.mime_type ≡ none)
  offer_fields_none p h = (
    none_of p.salt (ground (arith, h)),
    none_of p.relays (ground (arith, h)),
    none_of p.anon (ground (arith, h)),
    none_of p.file_name (ground (arith, h)),
    none_of p.file_size (ground (arith, h)),
    none_of p.content_encoding (ground (arith, h)),
    none_of p.mime_type (ground (arith, h)),
  )

  decoded_length :
      (value tag : List ℕ)
      → decode_answer_confirmation decode_base64 value ≡ some tag
      → length tag ≡ 16
  unfolding decode_answer_confirmation
  decoded_length value tag h =
      let sized = unless-some (not (text_len value == 24)) _ h in
      let (bytes, decoded, rest) = and_then-some (decode_base64 value) _ sized.1 in
      let whole = unless-some (not (length bytes == 16)) (some bytes) rest in
      ap length (sym (some_injective whole.1)) ∙ ground (arith, whole)

  validate_answer-IsReadableAnswer :
      (p : SignalingPayload)
      → p.kind ≡ answer
      → validate_answer decode_base64 p ≡ ok tt
      → IsReadableAnswer p
  unfolding validate_answer offer_salt confirmation_tag fallback_relays
  validate_answer-IsReadableAnswer p k h =
      let a = ensure-next (not (has_offer_field p)) answer_with_offer_field _ h in
      let (value, carried, b) = or_err-next p.confirm no_tag _ a.1 in
      let (tag, decoded) =
        some_of (decode_answer_confirmation decode_base64 value) (ensure-true _ bad_tag b) in
      let (no_salts, no_relays, no_anon, no_name, no_size, no_coding, no_mime) =
        offer_fields_none p a.0 in
      (
        (
          tag,
          ap (λ o. and_then o (decode_answer_confirmation decode_base64)) carried ∙ decoded,
          decoded_length value tag decoded,
        ),
        ap
            (λ kind.
              if◌then◌else◌ (not (is_offer kind) || (is_offer kind && is_some_and (λ a. a) p.anon))
                none (and_then p.relays (λ r. to_option (fallback_relays_from parse r))))
            k,
        ap (λ kind. is_offer kind && is_some_and (λ a. a) p.anon) k,
        ap (λ o. or_err o no_salt >>= (λ s. ensure (length s == code_salt_len) bad_salt >> ok s))
            no_salts,
        no_relays,
        no_anon,
        no_name,
        no_size,
        no_coding,
        no_mime,
      )

  validate_kind-IsReadableKind :
      (kind : PayloadKind) (p : SignalingPayload)
      → p.kind ≡ kind
      → validate_kind parse decode_base64 kind p ≡ ok tt
      → IsReadableKind kind p
  validate_kind-IsReadableKind offer p k h = validate_offer-IsReadableOffer p k h
  validate_kind-IsReadableKind answer p k h = validate_answer-IsReadableAnswer p k h

  timed :
      (stamp : ℤ) → is_time stamp ≡ true → (ms : ℕ) × (stamp ≡ pos ms) × (ms ≤ max_created_at_ms)
  timed (pos ms) h = (ms, refl, ground (arith, h))
  timed (negsuc n) h = cc

  pub validate-IsReadable :
      (p : SignalingPayload) → validate parse decode_base64 p ≡ ok tt → IsReadable p
  unfolding validate peer_public_key
  validate-IsReadable p h =
      let a = ensure-next (length p.public_key == public_key_len) bad_public_key _ h in
      let b = ensure-next (is_time p.created_at) bad_time _ a.1 in
      (
        (ap (λ t. ensure t bad_public_key >> ok p.public_key) a.0, timed p.created_at b.0),
        validate_kind-IsReadableKind p.kind p refl b.1,
      )
