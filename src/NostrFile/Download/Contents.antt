-- ===== src/NostrFile/Download/Contents.antt =====
-- The contents behind the pieces that a cycle of download.rs holds.
use ptransfer_cli.Common.{
  is_some, ℕ, ◌≡◌, refl, List, [], ◌∷◌, Option, none, some, ◌⊎◌, inl, inr, Bool, true, false, not,
  ◌&&◌, Bool-cases, ltb, length, set, get_or, if◌then◌else◌,
}
use ptransfer_cli.Crypto.Aead.{Aead}
use ptransfer_cli.NostrFile.Codec.{open_piece}
use ptransfer_cli.NostrFile.Manifest.{NostrFileManifest}
use ptransfer_cli.NostrFile.Download.{Download}
use ptransfer_cli.NostrFile.Download.Cycle.{
  hold, hold_opened, is_asked, take_answer, take_answers, mark_tried, tried_from, fetch,
}
use ptransfer_cli.NostrFile.Download.Holding.{get_or-set}

-- A relay answered with this content for this index.
abbrev pub HasEvent : ℕ → List ℕ → List (ℕ × List ℕ) → Type 0
HasEvent i content [] = ⊥
HasEvent i content ((index, served) ∷ events) =
    ((index ≡ i) × (served ≡ content)) ⊎ HasEvent i content events

abbrev pub HasAnswer : ℕ → List ℕ → List (ℕ × List (ℕ × List ℕ)) → Type 0
HasAnswer i content [] = ⊥
HasAnswer i content ((position, events) ∷ answers) =
    HasEvent i content events ⊎ HasAnswer i content answers

module _ (aead : Aead) (key transfer_id : List ℕ) where
  -- Each piece held is what a content opens to under its index, of those in `P`.
  abbrev pub Holds : (ℕ → List ℕ → Type 0) → NostrFileManifest → List (Option (List ℕ)) → Type 0
  Holds P m chunks =
      (i : ℕ) (piece : List ℕ)
      → get_or chunks i none ≡ some piece
      → (content : List ℕ) × P i content
        × (open_piece aead key transfer_id m.total_chunks m.chunk_size i content ≡ some piece)

  abbrev pub HoldsOf :
      (ℕ → List ℕ → Type 0) → Option NostrFileManifest → List (Option (List ℕ)) → Type 0
  HoldsOf P none chunks = chunks ≡ []
  HoldsOf P (some m) chunks = Holds P m chunks

  abbrev pub IsFrom : (ℕ → List ℕ → Type 0) → Download → Type 0
  IsFrom P s = HoldsOf P s.described s.chunks

  pub HoldsOf-more :
      (P Q : ℕ → List ℕ → Type 0)
      → ((i : ℕ) (content : List ℕ) → P i content → Q i content)
      → (o : Option NostrFileManifest) (chunks : List (Option (List ℕ))) → HoldsOf P o chunks
      → HoldsOf Q o chunks
  HoldsOf-more P Q more none chunks h = h
  HoldsOf-more P Q more (some m) chunks h = λ i piece e.
      let (content, served, opened) = h i piece e in (content, more i content served, opened)

  module _ (P : ℕ → List ℕ → Type 0) (m : NostrFileManifest) where
    hold-Holds :
        (s : Download) (i : ℕ) (piece content : List ℕ)
        → P i content
        → open_piece aead key transfer_id m.total_chunks m.chunk_size i content ≡ some piece
        → Holds P m s.chunks
        → Holds P m (hold s i piece).chunks
    unfolding hold
    hold-Holds s i piece content served opened h =
        elim (Bool-cases (ltb i (length s.chunks) && not (is_some (get_or s.chunks i none)))) [
          | inl k ↦ rw k (
              get_or-set
                (λ j p.
                  (c : List ℕ) × P j c
                  × (open_piece aead key transfer_id m.total_chunks m.chunk_size j c ≡ some p))
                s.chunks i piece (content, served, opened) h)
          | inr k ↦ rw k h
        ]

    hold_opened-Holds :
        (s : Download) (i : ℕ) (content : List ℕ) (opened : Option (List ℕ))
        → P i content
        → open_piece aead key transfer_id m.total_chunks m.chunk_size i content ≡ opened
        → Holds P m s.chunks
        → Holds P m (hold_opened aead key transfer_id s i opened).chunks
    hold_opened-Holds s i content none served e h = h
    hold_opened-Holds s i content (some piece) served e h = hold-Holds s i piece content served e h

    if-Holds :
        (b : Bool) (s t : Download)
        → Holds P m s.chunks
        → Holds P m t.chunks
        → Holds P m (if b then s else t).chunks
    if-Holds true s t h k = h
    if-Holds false s t h k = k

    take_answer-Holds :
        (tried : List (ℕ × ℕ × ℕ)) (position : ℕ) (s : Download) (events : List (ℕ × List ℕ))
        → ((i : ℕ) (content : List ℕ) → HasEvent i content events → P i content)
        → Holds P m s.chunks
        → Holds P m (take_answer aead key transfer_id m tried position s events).chunks
    unfolding take_answer
    take_answer-Holds tried position s [] served h = h
    take_answer-Holds tried position s ((i, content) ∷ events) served h =
        let test = ltb i m.total_chunks && is_asked tried position i in
        let opened =
          hold_opened aead key transfer_id s i
            (open_piece aead key transfer_id m.total_chunks m.chunk_size i content) in
        take_answer-Holds tried position (if test then opened else s) events
          (λ j c e. served j c (inr e))
          (if-Holds test opened s
            (hold_opened-Holds s i content _ (served i content (inl (refl, refl))) refl h) h)

    take_answers-Holds :
        (tried : List (ℕ × ℕ × ℕ)) (s : Download) (answers : List (ℕ × List (ℕ × List ℕ)))
        → ((i : ℕ) (content : List ℕ) → HasAnswer i content answers → P i content)
        → Holds P m s.chunks
        → Holds P m (take_answers aead key transfer_id m tried s answers).chunks
    unfolding take_answers
    take_answers-Holds tried s [] served h = h
    take_answers-Holds tried s ((position, events) ∷ answers) served h =
        let test = ltb position (length s.ring) in
        let fetched = take_answer aead key transfer_id m tried position s events in
        take_answers-Holds tried (if test then fetched else s) answers (λ j c e. served j c (inr e))
          (if-Holds test fetched s
            (take_answer-Holds tried position s events (λ j c e. served j c (inl e)) h) h)

    mark_tried-Holds :
        (s : Download) (now : ℕ) (tried : List (ℕ × ℕ × ℕ))
        → Holds P m s.chunks
        → Holds P m (mark_tried s now tried).chunks
    unfolding mark_tried
    mark_tried-Holds s now [] h = h
    mark_tried-Holds s now ((i, position, generation) ∷ tried) h =
        let marked : Download = record s {
          last_tried = set s.last_tried i (some (position, generation));
          last_tried_at = set s.last_tried_at i (some now);
        } in
        let test = is_some (get_or s.chunks i none) in
        mark_tried-Holds (if test then s else marked) now tried (if-Holds test s marked h h)

    pub fetch-Holds :
        (s : Download) (now finished : ℕ) (answers : List (ℕ × List (ℕ × List ℕ)))
        → ((i : ℕ) (content : List ℕ) → HasAnswer i content answers → P i content)
        → Holds P m s.chunks
        → Holds P m (fetch aead key transfer_id s m now finished answers).chunks
    unfolding fetch
    fetch-Holds s now finished answers served h =
        mark_tried-Holds _ finished (tried_from s now 0 s.upto) (
          take_answers-Holds (tried_from s now 0 s.upto) (record s { last_cycle_at = some now })
            answers served h)
