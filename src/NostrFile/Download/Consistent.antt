-- ===== src/NostrFile/Download/Consistent.antt =====
-- Consistent states of the receiver of download.rs, under the operations of a message and of a cycle.
use ptransfer_cli.Common.{
  is_some, ℕ, suc, ◌≤◌, ◌<◌, ◌≡◌, refl, sym, subst, ap, ◌∙◌, List, [], ◌∷◌, Option, none, some, inl,
  inr, Bool, true, false, Bool-cases, not, ◌&&◌, ltb, ltb→lt, length, length-set, set, get_or, All,
  if◌then◌else◌, Result, ok, ◌>>=◌, ◌>>◌, ensure, ensure-ok, or_err, some_injective, arith,
}
use ptransfer_cli.Crypto.Aead.{Aead}
use ptransfer_cli.NostrFile.Codec.{open_piece}
use ptransfer_cli.NostrFile.Manifest
use ptransfer_cli.NostrFile.Manifest.{NostrFileManifest}
use ptransfer_cli.NostrFile.Control
use ptransfer_cli.NostrFile.Control.{
  SenderMessage, manifest, avail, cancel, check_map, map_outside_ring, decode_position, counter_of,
}
use ptransfer_cli.NostrFile.Download.{Download, read_map, with_known, relays_eq, adopted_ring}
use ptransfer_cli.NostrFile.Download.Cycle.{
  hold, hold_opened, is_asked, take_answer, take_answers, mark_tried,
}
use ptransfer_cli.NostrFile.Download.Holding.{held, held-set, get_or-set}

module _ (aead : Aead) (key transfer_id : List ℕ) where
  -- A piece that some content opens to under an index.
  abbrev pub IsOpened : NostrFileManifest → ℕ → List ℕ → Type 0
  IsOpened m i piece =
      (content : List ℕ) × (open_piece aead key transfer_id m.total_chunks m.chunk_size i content
        ≡ some piece)

  abbrev pub Describes : Option NostrFileManifest → List (Option (List ℕ)) → Type 0
  Describes none chunks = chunks ≡ []
  Describes (some m) chunks =
      (Manifest.validate m ≡ ok tt)
      × (length chunks ≡ m.total_chunks)
      × ((i : ℕ) (piece : List ℕ) → get_or chunks i none ≡ some piece → IsOpened m i piece)

  abbrev pub IsConsistent : Download → Type 0
  IsConsistent s =
      Describes s.described s.chunks
      × (s.chunks_done ≡ held s.chunks)
      × (s.upto ≤ length s.chunks)
      × (length s.positions ≡ s.upto)
      × All (λ p. p < length s.ring) s.positions

  hold-IsConsistent :
      (m : NostrFileManifest) (s : Download) (i : ℕ) (piece : List ℕ)
      → s.described ≡ some m
      → IsOpened m i piece
      → IsConsistent s
      → IsConsistent (hold s i piece)
  unfolding hold
  hold-IsConsistent m s i piece e opened w =
      elim (Bool-cases (ltb i (length s.chunks) && not (is_some (get_or s.chunks i none)))) [
        | inl k ↦
            let (d, done, c, p, r) = w in
            let inside : i < length s.chunks = ground (arith, k) in
            let free : is_some (get_or s.chunks i none) ≡ false = ground (arith, k) in
            let (valid, len, old) = subst (λ o. Describes o s.chunks) e d in
            let kept : Describes (some m) (set s.chunks i (some piece)) = (
              valid,
              length-set s.chunks i (some piece) ∙ len,
              get_or-set (IsOpened m) s.chunks i piece opened old,
            ) in
            rw k (
              subst (λ o. Describes o (set s.chunks i (some piece))) (sym e) kept,
              omega (arith, done, held-set s.chunks i piece inside free),
              omega (arith, c, length-set s.chunks i (some piece)),
              p,
              r,
            )
        | inr k ↦ rw k w
      ]

  hold-described :
      (s : Download) (i : ℕ) (piece : List ℕ) → (hold s i piece).described ≡ s.described
  unfolding hold
  hold-described s i piece = ground arith

  -- Consistent, and still over this manifest.
  abbrev pub IsOver : NostrFileManifest → Download → Type 0
  IsOver m s = (s.described ≡ some m) × IsConsistent s

  hold_opened-IsOver :
      (m : NostrFileManifest) (s : Download) (i : ℕ) (content : List ℕ) (opened : Option (List ℕ))
      → open_piece aead key transfer_id m.total_chunks m.chunk_size i content ≡ opened
      → IsOver m s
      → IsOver m (hold_opened aead key transfer_id s i opened)
  hold_opened-IsOver m s i content none h w = w
  hold_opened-IsOver m s i content (some piece) h (e, w) =
      (hold-described s i piece ∙ e, hold-IsConsistent m s i piece e (content, h) w)

  if-IsOver :
      (m : NostrFileManifest) (b : Bool) (s t : Download)
      → IsOver m s
      → IsOver m t
      → IsOver m (if b then s else t)
  if-IsOver m true s t w x = w
  if-IsOver m false s t w x = x

  take_answer-IsOver :
      (m : NostrFileManifest) (tried : List (ℕ × ℕ × ℕ)) (position : ℕ) (s : Download)
      (events : List (ℕ × List ℕ))
      → IsOver m s
      → IsOver m (take_answer aead key transfer_id m tried position s events)
  unfolding take_answer
  take_answer-IsOver m tried position s [] w = w
  take_answer-IsOver m tried position s ((i, content) ∷ events) w =
      let test = ltb i m.total_chunks && is_asked tried position i in
      let opened =
        hold_opened aead key transfer_id s i
          (open_piece aead key transfer_id m.total_chunks m.chunk_size i content) in
      take_answer-IsOver m tried position (if test then opened else s) events
        (if-IsOver m test opened s (hold_opened-IsOver m s i content _ refl w) w)

  pub take_answers-IsOver :
      (m : NostrFileManifest) (tried : List (ℕ × ℕ × ℕ)) (s : Download)
      (answers : List (ℕ × List (ℕ × List ℕ)))
      → IsOver m s
      → IsOver m (take_answers aead key transfer_id m tried s answers)
  unfolding take_answers
  take_answers-IsOver m tried s [] w = w
  take_answers-IsOver m tried s ((position, events) ∷ answers) w =
      let test = ltb position (length s.ring) in
      let fetched = take_answer aead key transfer_id m tried position s events in
      take_answers-IsOver m tried (if test then fetched else s) answers
        (if-IsOver m test fetched s (take_answer-IsOver m tried position s events w) w)

  pub mark_tried-IsOver :
      (m : NostrFileManifest) (s : Download) (now : ℕ) (tried : List (ℕ × ℕ × ℕ))
      → IsOver m s
      → IsOver m (mark_tried s now tried)
  unfolding mark_tried
  mark_tried-IsOver m s now [] w = w
  mark_tried-IsOver m s now ((i, position, generation) ∷ tried) w =
      let marked : Download = record s {
        last_tried = set s.last_tried i (some (position, generation));
        last_tried_at = set s.last_tried_at i (some now);
      } in
      let test = is_some (get_or s.chunks i none) in
      mark_tried-IsOver m (if test then s else marked) now tried (if-IsOver m test s marked w w)

read_one :
    (size : ℕ) (known : Option ℕ) (checked : Result Control.Error (Unit {0})) (rest : List ℕ)
    {n : ℕ}
    → (or_err known map_outside_ring >>= (λ p. ensure (ltb p size) map_outside_ring >> checked))
      ≡ ok tt
    → (checked ≡ ok tt → (length rest ≡ n) × All (λ p. p < size) rest)
    → (length (with_known known rest) ≡ suc n) × All (λ p. p < size) (with_known known rest)
read_one size none checked rest h later = cc
read_one size (some p) checked rest h later =
    let (low, there) = ensure-ok (ltb p size) map_outside_ring checked h in
    let (len, inside) = later there in (ap suc len, (ltb→lt p size low, inside))

-- The entries of a map that passes the test are positions of the ring, one for each character.
pub read_map_lem :
    (size : ℕ) (chars : List ℕ)
    → check_map size chars ≡ ok tt
    → (length (read_map chars) ≡ length chars) × All (λ p. p < size) (read_map chars)
unfolding read_map check_map
read_map_lem size [] h = (refl, tt)
read_map_lem size (c ∷ cs) h =
    read_one size (decode_position c) (check_map size cs) (read_map cs) h (read_map_lem size cs)

pub relays_eq-length : (xs ys : List (List ℕ)) → relays_eq xs ys ≡ true → length xs ≡ length ys
relays_eq-length [] [] h = refl
relays_eq-length [] (y ∷ ys) h = cc
relays_eq-length (x ∷ xs) [] h = cc
relays_eq-length (x ∷ xs) (y ∷ ys) h =
    let rest : relays_eq xs ys ≡ true = ground arith in ap suc (relays_eq-length xs ys rest)

-- The ring in use is at least as long as the one that an announcement names.
pub adopted_ring-length :
    (ring relays : List (List ℕ)) {left : List (List ℕ)}
    → adopted_ring ring relays ≡ some left
    → length relays ≤ length left
unfolding adopted_ring
adopted_ring-length ring [] h = omega arith
adopted_ring-length [] (r ∷ relays) h =
    subst (λ rs. suc (length relays) ≤ length rs) (some_injective h) (omega arith)
adopted_ring-length (x ∷ ring) (r ∷ relays) h =
    same_ring (x ∷ ring) (r ∷ relays) (relays_eq (x ∷ ring) (r ∷ relays))
      (relays_eq-length (x ∷ ring) (r ∷ relays)) h
  where
    same_ring :
        (xs ys : List (List ℕ)) {left : List (List ℕ)} (b : Bool)
        → (b ≡ true → length xs ≡ length ys)
        → (if b then some xs else none) ≡ some left
        → length ys ≤ length left
    same_ring xs ys true len e =
        subst (λ rs. length ys ≤ length rs) (some_injective e) (omega (arith, len refl))
    same_ring xs ys false len e = cc
