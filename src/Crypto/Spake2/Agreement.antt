-- ===== src/Crypto/Spake2/Agreement.antt =====
-- Both sides of a SPAKE2 run with one secret reach the same root.
use ptransfer_cli.Common.{
  ℕ, ◌≡◌, refl, sym, ap, subst, ap₂, ◌∙◌, List, Option, some, true, false, ◌==◌, ==_iff, length, ok,
  ◌>>◌, ensure, ensure-next, >>=-ok,
}
use ptransfer_cli.Crypto.Spake2.{
  Curve, PakeRole, sender, receiver, PakeIdentities, PakeRun, bad_encoding, own_constant,
  peer_constant, read_pake_scalar, compress, draw_scalar, start, finish, element_a, element_b,
  transcript, pake_message_len, is_valid_pake_message,
}

module _ (curve : Curve) where
  open curve use {
    Point, Scalar, generator, add, sub, mul, is_identity, to_sec1, from_sec1, to_scalar, sub-add,
    mul-mul, mul-generator, mul-point, length-to_sec1, from_sec1-to_sec1,
  }

  -- What `start` makes of a secret: a run of its role whose message blinds its scalar by the constant.
  abbrev IsStarted : PakeRole → List ℕ → PakeRun curve → Type 0
  IsStarted role secret run =
      (w : Scalar) × (c : Point) × (read_pake_scalar curve secret ≡ ok w)
      × (own_constant curve role ≡ ok c)
      × (run.role ≡ role)
      × (run.secret ≡ secret)
      × (run.message ≡ to_sec1 (add (mul generator run.ephemeral) (mul c w)))
      × (length run.message ≡ 33)

  compress-ok :
      (p : Point) (bytes : List ℕ)
      → compress curve p ≡ ok bytes
      → (bytes ≡ to_sec1 p) × (length bytes ≡ 33)
  unfolding compress
  compress-ok p bytes h =
      let sized = ensure-next (length (to_sec1 p) == pake_message_len) bad_encoding _ h in
      let same : bytes ≡ to_sec1 p = cc in
      (same, ap length same ∙ (==_iff (length (to_sec1 p)) 33).0 sized.0)

  compress_point : (p : Point) → is_identity p ≡ false → compress curve p ≡ ok (to_sec1 p)
  unfolding compress
  compress_point p h =
      ap (λ b. ensure b bad_encoding >> ok (to_sec1 p))
        ((==_iff (length (to_sec1 p)) 33).1 (length-to_sec1 p h))

  start-IsStarted :
      (role : PakeRole) (secret : List ℕ) (draws : List (Option (List ℕ))) (run : PakeRun curve)
      → start curve role secret draws ≡ ok run
      → IsStarted role secret run
  unfolding start
  start-IsStarted role secret draws run h =
      let (w, read, a) = >>=-ok (read_pake_scalar curve secret) _ h in
      let (e, drawn, b) = >>=-ok (draw_scalar curve draws) _ a in
      let (c, constant, d) = >>=-ok (own_constant curve role) _ b in
      let (message, packed, made) = >>=-ok (compress curve (add (mul generator e) (mul c w))) _ d in
      let blinded = compress-ok (add (mul generator e) (mul c w)) message packed in
      let started : PakeRun curve = record {
        role = role;
        secret = secret;
        ephemeral = e;
        message = message;
      } in
      let same : started ≡ run = cc in
      subst (IsStarted role secret) same (w, c, read, constant, refl, refl, blinded.0, blinded.1)

  -- What `finish` makes of the peer's element, where the secret and the peer's constant are the same: the
  -- element that depends on the two scalars alone.
  finish_unblinds :
      (sha256 : List ℕ → List ℕ) (run : PakeRun curve) (ids : PakeIdentities) (peer : List ℕ)
      (w e : Scalar) (c : Point)
      → read_pake_scalar curve run.secret ≡ ok w
      → peer_constant curve run.role ≡ ok c
      → peer ≡ to_sec1 (add (mul generator e) (mul c w))
      → length peer ≡ 33
      → finish curve sha256 run peer ids
        ≡ ok (
            sha256 (
              transcript ids
                (element_a curve run.role run.message peer)
                (element_b curve run.role run.message peer)
                (to_sec1 (mul (mul generator e) run.ephemeral))
                run.secret))
  unfolding finish
  finish_unblinds sha256 run ids peer w e c read constant made sized =
      let point = add (mul generator e) (mul c w) in
      let decoded : from_sec1 peer ≡ some point =
        ap from_sec1 made ∙ from_sec1-to_sec1 point (sym (ap length made) ∙ sized) in
      let whole : (length peer == pake_message_len) ≡ true = (==_iff (length peer) 33).1 sized in
      let shared =
        compress_point (mul (mul generator e) run.ephemeral)
          (mul-point (mul generator e) run.ephemeral (mul-generator e)) in
      rw
        (
          read,
          whole,
          decoded,
          constant,
          sub-add (mul generator e) (mul c w),
          mul-generator e,
          shared,
        )
        refl

  -- Two runs started with one secret, as sender and as receiver, finish on each other's elements, and
  -- with the same root where they bind the same identities, whatever scalars were drawn.
  pub finish-start :
      (sha256 : List ℕ → List ℕ) (secret : List ℕ) (draws draws' : List (Option (List ℕ)))
      (a b : PakeRun curve) (ids : PakeIdentities)
      → start curve sender secret draws ≡ ok a
      → start curve receiver secret draws' ≡ ok b
      → (root : List ℕ) × (finish curve sha256 a b.message ids ≡ ok root)
        × (finish curve sha256 b a.message ids ≡ ok root)
  finish-start sha256 secret draws draws' a b ids ha hb =
      let (w, m, read, is_m, role_a, secret_a, made_a, sized_a) =
        start-IsStarted sender secret draws a ha in
      let (w', n, read', is_n, role_b, secret_b, made_b, sized_b) =
        start-IsStarted receiver secret draws' b hb in
      let same : w' ≡ w = cc in
      let to_a =
        finish_unblinds sha256 a ids b.message w b.ephemeral n
          (ap (read_pake_scalar curve) secret_a ∙ read) (ap (peer_constant curve) role_a ∙ is_n)
          (made_b ∙ ap (λ v. to_sec1 (add (mul generator b.ephemeral) (mul n v))) same) sized_b in
      let to_b =
        finish_unblinds sha256 b ids a.message w a.ephemeral m
          (ap (read_pake_scalar curve) secret_b ∙ read) (ap (peer_constant curve) role_b ∙ is_m)
          made_a sized_a in
      let shared = λ (p q : Scalar). to_sec1 (mul (mul generator p) q) in
      let hashed = λ (k s : List ℕ). sha256 (transcript ids a.message b.message k s) in
      (
        hashed (shared b.ephemeral a.ephemeral) secret,
        to_a
            ∙ ap₂
                (λ r s. ok (
                  sha256 (
                    transcript ids (element_a curve r a.message b.message)
                      (element_b curve r a.message b.message) (shared b.ephemeral a.ephemeral) s)))
                role_a secret_a,
        to_b
            ∙ ap₂
                (λ r s. ok (
                  sha256 (
                    transcript ids (element_a curve r b.message a.message)
                      (element_b curve r b.message a.message) (shared a.ephemeral b.ephemeral) s)))
                role_b secret_b
            ∙ ap (λ p. ok (hashed (to_sec1 p) secret)) (mul-mul generator a.ephemeral b.ephemeral),
      )

  -- The element that a run publishes passes the peer's check.
  pub start-is_valid_pake_message :
      (role : PakeRole) (secret : List ℕ) (draws : List (Option (List ℕ))) (run : PakeRun curve)
      → start curve role secret draws ≡ ok run
      → is_valid_pake_message curve run.message ≡ true
  unfolding is_valid_pake_message
  start-is_valid_pake_message role secret draws run h =
      let (w, c, read, is_c, is_role, is_secret, made, sized) =
        start-IsStarted role secret draws run h in
      let point = add (mul generator run.ephemeral) (mul c w) in
      let decoded : from_sec1 run.message ≡ some point =
        ap from_sec1 made ∙ from_sec1-to_sec1 point (sym (ap length made) ∙ sized) in
      let whole : (length run.message == 33) ≡ true = (==_iff (length run.message) 33).1 sized in
      rw (whole, decoded) refl
