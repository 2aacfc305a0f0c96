-- ===== src/NostrFile/Download/Heard.antt =====
-- A message of the sender on a consistent state of the receiver of download.rs.
use ptransfer_cli.Common.{
  is_some, ℕ, ◌≤◌, ◌<◌, ◌≡◌, refl, subst, ◌∙◌, List, [], ◌∷◌, Option, none, some, Bool, true, false,
  not, ◌||◌, length, length-replicate, All, if◌then◌else◌, Result, ok, err, ◌>>◌, ensure, with_err,
  and_then, arith,
}
use ptransfer_cli.Common.Bytes.{bytes_eq}
use ptransfer_cli.Crypto.Aead.{Aead}
use ptransfer_cli.NostrFile.Manifest
use ptransfer_cli.NostrFile.Manifest.{NostrFileManifest, check_window}
use ptransfer_cli.NostrFile.Control
use ptransfer_cli.NostrFile.Control.{
  before_manifest, SenderMessage, manifest, avail, cancel, check_map,
}
use ptransfer_cli.NostrFile.Download.{
  Error, bad_manifest, bad_window, other_file, Download, is_ok, sized, read_map, adopted_ring,
  total_of, is_ignored, take_manifest, accept_manifest, take_message, announced, handle,
}
use ptransfer_cli.NostrFile.Download.Holding.{held, held-replicate, get_or-replicate}
use ptransfer_cli.NostrFile.Download.Consistent.{
  Describes, IsConsistent, read_map_lem, adopted_ring-length,
}

All-below : (m n : ℕ) (ps : List ℕ) → m ≤ n → All (λ p. p < m) ps → All (λ p. p < n) ps
All-below m n [] h a = tt
All-below m n (p ∷ ps) h (low, a) = (omega arith, All-below m n ps h a)

-- What the receiver's checks of an announcement give.
validate-avail :
    (normalize : List ℕ → Option (List ℕ)) (n upto : ℕ) (relays : List (List ℕ)) (chars : List ℕ)
    (gens : List (ℕ × ℕ)) (ctl : List (List ℕ)) (total : ℕ)
    → Control.validate normalize (avail n upto relays chars gens ctl) (some total) ≡ ok tt
    → (upto ≤ total) × (length chars ≡ upto) × (check_map (length relays) chars ≡ ok tt)
unfolding Control.validate
validate-avail normalize n upto relays chars gens ctl total h = ground arith

is_ok-inv : {E : Type 0} (r : Result E (Unit {0})) → is_ok r ≡ true → r ≡ ok tt
is_ok-inv (ok t) h = refl
is_ok-inv (err e) h = cc

is_some-inv : {A : Type 0} (o : Option A) → is_some o ≡ false → o ≡ none
is_some-inv none h = refl
is_some-inv (some a) h = cc

-- A property of the state of a result, where there is one.
abbrev pub Keeps : (Download → Type 0) → Result Error (Download × Bool) → Type 0
Keeps P (ok (s, due)) = P s
Keeps P (err e) = Unit

module _ (P : Download → Type 0) where
  pub after-Keeps :
      {E : Type 0} (checked : Result E (Unit {0})) (e : Error)
      (next : Result Error (Download × Bool))
      → (checked ≡ ok tt → Keeps P next)
      → Keeps P (with_err checked e >> next)
  after-Keeps (ok t) e next h = h refl
  after-Keeps (err f) e next h = tt

  pub ensured-Keeps :
      (test : Bool) (e : Error) (next : Result Error (Download × Bool))
      → (test ≡ true → Keeps P next)
      → Keeps P (ensure test e >> next)
  ensured-Keeps true e next h = h refl
  ensured-Keeps false e next h = tt

  pub unless-Keeps :
      (test : Bool) (s : Download) (next : Result Error (Download × Bool))
      → P s
      → (test ≡ false → Keeps P next)
      → Keeps P (if test then ok (s, false) else next)
  unless-Keeps true s next w h = w
  unless-Keeps false s next w h = h refl

module _ (aead : Aead) (key transfer_id : List ℕ) (to_hex : ℕ → List ℕ)
    (expected_name : List ℕ) where
  abbrev pub IsKept : Result Error (Download × Bool) → Type 0
  IsKept = Keeps (IsConsistent aead key transfer_id)

  sized-IsConsistent :
      (s : Download) (n : ℕ) (m : NostrFileManifest) (pubkey now : ℕ)
      → Manifest.validate m ≡ ok tt
      → IsConsistent aead key transfer_id s
      → s.described ≡ none
      → IsConsistent aead key transfer_id (sized to_hex expected_name s n m pubkey now)
  sized-IsConsistent s n m pubkey now valid (d, done, c, p, r) e =
      let empty : s.chunks ≡ [] = subst (λ o. Describes aead key transfer_id o s.chunks) e d in
      let none_held : s.chunks_done ≡ 0 =
        subst (λ cs. s.chunks_done ≡ held cs) empty done ∙ held-replicate 0 in
      let none_announced : s.upto ≤ 0 = subst (λ cs. s.upto ≤ length cs) empty c in
      (
        (
          valid,
          length-replicate m.total_chunks none,
          λ i piece h. absurd (get_or-replicate m.total_chunks i piece h),
        ),
        omega (arith, none_held, held-replicate m.total_chunks),
        omega arith,
        p,
        r,
      )

  take_manifest-IsKept :
      (s : Download) (n : ℕ) (m : NostrFileManifest) (pubkey now : ℕ)
      → IsConsistent aead key transfer_id s
      → IsKept (take_manifest to_hex expected_name s n m pubkey now)
  unfolding take_manifest accept_manifest
  take_manifest-IsKept s n m pubkey now w =
      unless-Keeps (IsConsistent aead key transfer_id)
        (is_some s.described || not (bytes_eq m.pubkey (to_hex pubkey))) s
        (accept_manifest to_hex expected_name s n m pubkey now) w
        (λ fresh.
          after-Keeps (IsConsistent aead key transfer_id) (Manifest.validate m) bad_manifest _
            (λ valid.
              after-Keeps (IsConsistent aead key transfer_id) (check_window m now) bad_window _
                (λ t.
                  ensured-Keeps (IsConsistent aead key transfer_id)
                    (bytes_eq m.file_name expected_name) other_file _
                    (λ agreed.
                      sized-IsConsistent s n m pubkey now valid w
                        (is_some-inv s.described (ground (arith, fresh)))))))

  announced-IsKept :
      (s : Download) (left : Option (List (List ℕ))) (n upto : ℕ) (relays : List (List ℕ))
      (chars : List ℕ) (gens : List (ℕ × ℕ)) (ctl : List (List ℕ)) (now : ℕ)
      → ((ring : List (List ℕ)) → left ≡ some ring → length relays ≤ length ring)
      → upto ≤ length s.chunks
      → length chars ≡ upto
      → check_map (length relays) chars ≡ ok tt
      → IsConsistent aead key transfer_id s
      → IsConsistent aead key transfer_id
          (announced to_hex expected_name s left n upto chars gens ctl now).0
  announced-IsKept s none n upto relays chars gens ctl now ringed fits len checked w = w
  announced-IsKept s (some ring) n upto relays chars gens ctl now ringed fits len checked
        (d, done, c, p, r) =
      let (same, inside) = read_map_lem (length relays) chars checked in
      (
        d,
        done,
        fits,
        same ∙ len,
        All-below (length relays) (length ring) (read_map chars) (ringed ring refl) inside,
      )

  described_total :
      (normalize : List ℕ → Option (List ℕ)) (s : Download) (n upto : ℕ) (relays : List (List ℕ))
      (chars : List ℕ) (gens : List (ℕ × ℕ)) (ctl : List (List ℕ))
      → Control.validate normalize (avail n upto relays chars gens ctl) (total_of s) ≡ ok tt
      → Control.validate normalize (avail n upto relays chars gens ctl) (some (length s.chunks))
        ≡ ok tt
  described_total normalize s n upto relays chars gens ctl h = with_total s.described h
    where
      with_total :
          (described : Option NostrFileManifest)
          → Control.validate normalize
              (avail n upto relays chars gens ctl)
              (and_then described (λ m. some (length s.chunks)))
            ≡ ok tt
          → Control.validate normalize (avail n upto relays chars gens ctl) (some (length s.chunks))
            ≡ ok tt
      with_total none e =
          let wrong : err before_manifest ≡ ok tt = unfold Control.validate in e in cc
      with_total (some m) e = e

  take_message-IsKept :
      (normalize : List ℕ → Option (List ℕ)) (s : Download) (msg : SenderMessage) (pubkey now : ℕ)
      → Control.validate normalize msg (total_of s) ≡ ok tt
      → IsConsistent aead key transfer_id s
      → IsKept (take_message to_hex expected_name s msg pubkey now)
  unfolding take_message
  take_message-IsKept normalize s (manifest n m) pubkey now h w =
      take_manifest-IsKept s n m pubkey now w
  take_message-IsKept normalize s (avail n upto relays chars gens ctl) pubkey now h w =
      let (fits, len, checked) =
        validate-avail normalize n upto relays chars gens ctl (length s.chunks)
          (described_total normalize s n upto relays chars gens ctl h) in
      announced-IsKept s (adopted_ring s.ring relays) n upto relays chars gens ctl now
        (λ ring e. adopted_ring-length s.ring relays e) fits len checked w
  take_message-IsKept normalize s (cancel n) pubkey now h w = tt

  pub handle-IsKept :
      (normalize : List ℕ → Option (List ℕ)) (s : Download) (msg : Option SenderMessage)
      (pubkey now : ℕ)
      → IsConsistent aead key transfer_id s
      → IsKept (handle to_hex expected_name normalize s msg pubkey now)
  unfolding handle
  handle-IsKept normalize s none pubkey now w = w
  handle-IsKept normalize s (some msg) pubkey now w =
      unless-Keeps (IsConsistent aead key transfer_id)
        (is_ignored to_hex expected_name normalize s msg pubkey) s
        (take_message to_hex expected_name s msg pubkey now) w
        (λ heard.
          take_message-IsKept normalize s msg pubkey now
            (is_ok-inv (Control.validate normalize msg (total_of s)) (ground (arith, heard))) w)
