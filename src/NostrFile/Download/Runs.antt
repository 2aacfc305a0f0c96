-- ===== src/NostrFile/Download/Runs.antt =====
-- A download of three bytes in one piece, and the theorems on it.
use ptransfer_cli.Common.{
  ℕ, ◌+◌, ◌%◌, ◌≡◌, ◌<◌, ◌≤◌, refl, ap, List, [], ◌∷◌, ◌++◌, none, some, true, false, Bool, length,
  get_or, replicate, All, ok, arith,
}
use mathlib.Core.List.{Memᴰ}
use ptransfer_cli.Common.Bytes.{codes, bytes_eq}
use ptransfer_cli.Crypto.Aead.Toy.{toy_aead}
use ptransfer_cli.Wire.Flate.Toy.{toy_decoder}
use ptransfer_cli.NostrFile.{manifest_version}
use ptransfer_cli.NostrFile.Codec.{
  plain, kept, open_piece, chunk_aad, assemble_chunks, append_chunks, decompress_payload,
}
use ptransfer_cli.NostrFile.Handover.{verify_file}
use ptransfer_cli.NostrFile.Control.Reply.{acknowledge}
use ptransfer_cli.NostrFile.Codec.Pieces.{content_of, decode_chunk_content-content}
use ptransfer_cli.NostrFile.Manifest
use ptransfer_cli.NostrFile.Manifest.{NostrFileManifest, is_base64_sha256, is_identity}
use ptransfer_cli.NostrFile.Control
use ptransfer_cli.NostrFile.Control.{SenderMessage, avail, manifest, check_relays, set_counter}
use ptransfer_cli.NostrFile.Upload
use ptransfer_cli.NostrFile.Upload.{Upload, adopt_ring, record_placed, advance, announcement}
use ptransfer_cli.NostrFile.Upload.Invariant
use ptransfer_cli.NostrFile.Upload.Invariant.{adopts, records}
use ptransfer_cli.NostrFile.Download.Placement.{placement-handle}
use ptransfer_cli.NostrFile.Download.{
  Download, new, sized, announced, handle, take_message, take_manifest, accept_manifest,
  adopted_ring, placement, generation_of, read_map,
}
use ptransfer_cli.NostrFile.Download.Cycle.{
  cycle, cycle_over, missing_from, fetch, tried_from, tries, take_answers, take_answer, hold,
  mark_tried,
}
use ptransfer_cli.NostrFile.Download.Holding.{held}
use ptransfer_cli.NostrFile.Download.Planned.{is_held, is_cooling}
use ptransfer_cli.NostrFile.Download.Progress.{fetch-held}
use ptransfer_cli.NostrFile.Download.Reached.{
  Reachable-positions, Reachable, starts, steps, handles, cycles,
}
use ptransfer_cli.NostrFile.Download.Served.{WasServed, Reachable-WasServed}
use ptransfer_cli.NostrFile.Download.Loop.{
  Context, Round, message, run, run_once, take_event, check_clocks,
}
use ptransfer_cli.NostrFile.Download.Returned.{run-verified}

abbrev name : List ℕ
name = codes "report.pdf"

abbrev key : List ℕ
key = 7 ∷ []

abbrev id : List ℕ
id = codes "c05587dba544d9543610d42f7b7b640d"

abbrev file_hash : List ℕ → List ℕ
file_hash [] = replicate 43 b'A' ++ b'=' ∷ []
file_hash (x ∷ xs) = (b'A' + (x + length xs) % 26) ∷ replicate 42 b'A' ++ b'=' ∷ []

abbrev contents : List ℕ
contents = 1 ∷ 2 ∷ 3 ∷ []

abbrev relays : List (List ℕ)
relays = codes "wss://a.example" ∷ codes "wss://b.example" ∷ []

abbrev to_hex : ℕ → List ℕ
to_hex pubkey = replicate 64 b'a'

abbrev file : NostrFileManifest
file = record {
  v = manifest_version;
  file_name = name;
  file_size = 3;
  mime_type = codes "application/pdf";
  file_hash = file_hash (1 ∷ 2 ∷ 3 ∷ []);
  pubkey = to_hex 5;
  compression = plain;
  payload_size = 3;
  chunk_size = 49_152;
  total_chunks = 1;
  enc = 2;
  created_at = 1000;
  expires_at = 4600;
}

file_valid : Manifest.validate file ≡ ok tt
unfolding Manifest.validate is_base64_sha256 is_identity
file_valid = refl

abbrev sealed : List ℕ
sealed = content_of toy_aead key (1 ∷ 2 ∷ 3 ∷ []) (chunk_aad id 0 1) (replicate 12 1)

opened : open_piece toy_aead key id 1 49_152 0 sealed ≡ some (1 ∷ 2 ∷ 3 ∷ [])
unfolding open_piece
opened = ap kept (
    decode_chunk_content-content toy_aead key (1 ∷ 2 ∷ 3 ∷ []) (chunk_aad id 0 1) (replicate 12 1)
      49_152 refl (omega arith) (omega arith) (omega arith))

abbrev with_file : Download
with_file = sized to_hex name new 1 file 5 1000

abbrev ready : Download
ready = (announced to_hex name with_file (some relays) 2 1 (codes "B") [] relays 1001).0

hears_file : handle to_hex name some new (some (manifest 1 file)) 5 1000 ≡ ok (with_file, false)
unfolding handle new take_message take_manifest accept_manifest Manifest.validate is_base64_sha256
    is_identity Manifest.check_window Control.validate
hears_file = refl

hears_announcement :
    handle to_hex name some with_file (some (avail 2 1 relays (codes "B") [] relays)) 5 1001
    ≡ ok (ready, true)
unfolding handle new take_message Control.validate Control.check_relays Control.check_map
    Control.check_gens Control.decode_position Control.position_from adopted_ring
hears_announcement = refl

ready_reached : Reachable toy_aead key id toy_decoder file_hash to_hex name some ready
ready_reached =
    steps (steps starts (handles (some (manifest 1 file)) 5 1000 hears_file))
      (handles (some (avail 2 1 relays (codes "B") [] relays)) 5 1001 hears_announcement)

abbrev answers : List (ℕ × List (ℕ × List ℕ))
answers = (1, (0, sealed) ∷ []) ∷ []

fetched : (fetch toy_aead key id ready file 1001 1002 answers).chunks ≡ some (1 ∷ 2 ∷ 3 ∷ []) ∷ []
unfolding fetch new tried_from tries placement generation_of read_map Control.decode_position
    Control.position_from take_answers take_answer hold mark_tried
fetched = rw opened refl

Reachable-positions_example :
    (ready.upto ≤ length ready.chunks)
    × (length ready.positions ≡ ready.upto)
    × All (λ p. p < length ready.ring) ready.positions
    × (ready.chunks_done ≡ held ready.chunks)
Reachable-positions_example =
    Reachable-positions toy_aead key id toy_decoder file_hash to_hex name some ready_reached

ready_described : ready.described ≡ some file
ready_described = refl

ready_announced : 0 < ready.upto
ready_announced = omega arith

ready_placed : placement ready 0 ≡ some (1, 0)
unfolding placement read_map generation_of Control.decode_position Control.position_from
ready_placed = refl

ready_due : is_cooling ready 1001 0 1 0 ≡ false
ready_due = refl

fetch-held_example : is_held (fetch toy_aead key id ready file 1001 1002 answers) 0 ≡ true
fetch-held_example =
    fetch-held toy_aead key id toy_decoder file_hash to_hex name some 1001 1002 answers 0 1 0
      ((0, sealed) ∷ []) sealed ready_reached ready_described ready_announced ready_placed ready_due
      (Memᴰ.head refl) (Memᴰ.head refl) opened

abbrev after : Download
after = fetch toy_aead key id ready file 1001 1002 answers

hands_over :
    cycle toy_aead key id toy_decoder file_hash ready 1001 1002 answers true
    ≡ ok (record after { chunks = [] }, acknowledge 0 2 1 [], some (1 ∷ 2 ∷ 3 ∷ []))
unfolding cycle cycle_over missing_from fetch new tried_from tries placement generation_of read_map
    Control.decode_position Control.position_from take_answers take_answer hold mark_tried
    verify_file assemble_chunks append_chunks decompress_payload
hands_over = rw opened refl

abbrev context : Context
context = record { expires_at = 4000; awaiting_handover = true; started = 990 }

abbrev rounds : List Round
rounds =
    record {
      event = message (some (manifest 1 file)) 5;
      now = 1000;
      finished = 1000;
      answers = [];
      sends = true;
    }
    ∷ record {
      event = message (some (avail 2 1 relays (codes "B") [] relays)) 5;
      now = 1001;
      finished = 1002;
      answers = answers;
      sends = true;
    }
    ∷ []

abbrev joined_ready : Download
joined_ready = record ready { adopt_ctl = [] }

returns_file :
    run toy_aead key id toy_decoder file_hash to_hex name some context new rounds
    ≡ ok (
      record (fetch toy_aead key id joined_ready file 1001 1002 answers) { chunks = [] },
      some contents,
    )
unfolding run run_once take_event check_clocks handle take_message take_manifest accept_manifest
    Manifest.validate is_base64_sha256 is_identity Manifest.check_window Control.validate
    Control.check_relays Control.check_map Control.check_gens adopted_ring cycle cycle_over
    missing_from fetch new tried_from tries placement generation_of read_map Control.decode_position
    Control.position_from take_answers take_answer hold mark_tried verify_file assemble_chunks
    append_chunks decompress_payload
returns_file = rw opened refl

run-verified_example :
    let after : Download = record (fetch toy_aead key id joined_ready file 1001 1002 answers) {
      chunks = [];
    } in
    (m : NostrFileManifest) × (after.described ≡ some m)
    × (Manifest.validate m ≡ ok tt)
    × (bytes_eq m.file_name name ≡ true)
    × (length contents ≡ m.file_size)
    × (bytes_eq (file_hash contents) m.file_hash ≡ true)
run-verified_example =
    run-verified toy_aead key id toy_decoder file_hash to_hex name some context rounds returns_file

-- The sender's side of a file of two pieces, of which one is placed.
abbrev upload : Upload
upload = record_placed (adopt_ring (Upload.new 2) relays []) 0 1 false

upload_reached : Upload.Invariant.Reachable 2 upload
unfolding Upload.new adopt_ring record_placed
upload_reached =
    Upload.Invariant.steps (Upload.Invariant.steps Upload.Invariant.starts (adopts relays [] refl))
      (records 0 1 false (omega arith))

upload_distinct : check_relays some [] upload.ring ≡ ok tt
unfolding check_relays record_placed adopt_ring Upload.new
upload_distinct = refl

relays_distinct : check_relays some [] relays ≡ ok tt
unfolding check_relays
relays_distinct = refl

upload_small : length upload.ring ≤ 16
unfolding record_placed adopt_ring Upload.new
upload_small = omega arith

upload_announced : 0 < upload.upto
unfolding record_placed adopt_ring advance Upload.new
upload_announced = omega arith

-- A file of two pieces, of which one is served.
abbrev long_file : NostrFileManifest
long_file = record file {
  total_chunks = 2;
  payload_size = 2000;
  file_size = 2000;
  chunk_size = 1024;
}

abbrev with_long : Download
with_long = sized to_hex name new 1 long_file 5 1000

abbrev long_ready : Download
long_ready = (announced to_hex name with_long (some relays) 2 1 (codes "B") [] relays 1001).0

hears_long :
    handle to_hex name some new (some (manifest 1 long_file)) 5 1000 ≡ ok (with_long, false)
unfolding handle new take_message take_manifest accept_manifest Manifest.validate is_base64_sha256
    is_identity Manifest.check_window Control.validate
hears_long = refl

hears_later :
    handle to_hex name some with_long (some (avail 2 1 relays (codes "B") [] relays)) 5 1001
    ≡ ok (long_ready, true)
unfolding handle new take_message Control.validate Control.check_relays Control.check_map
    Control.check_gens Control.decode_position Control.position_from adopted_ring
hears_later = refl

abbrev sealed_first : List ℕ
sealed_first = content_of toy_aead key (1 ∷ []) (chunk_aad id 0 2) (replicate 12 1)

opened_first : open_piece toy_aead key id 2 1024 0 sealed_first ≡ some (1 ∷ [])
unfolding open_piece
opened_first = ap kept (
    decode_chunk_content-content toy_aead key (1 ∷ []) (chunk_aad id 0 2) (replicate 12 1) 1024 refl
      (omega arith) (omega arith) (omega arith))

abbrev long_after : Download
long_after = fetch toy_aead key id long_ready long_file 1001 1002 ((1, (0, sealed_first) ∷ []) ∷ [])

goes_on :
    cycle toy_aead key id toy_decoder file_hash long_ready 1001 1002
      ((1, (0, sealed_first) ∷ []) ∷ [])
      true
    ≡ ok (long_after, acknowledge 0 2 1 [], none)
unfolding cycle cycle_over missing_from fetch new tried_from tries placement generation_of read_map
    Control.decode_position Control.position_from take_answers take_answer hold mark_tried
goes_on = rw opened_first refl

long_reached : Reachable toy_aead key id toy_decoder file_hash to_hex name some long_after
long_reached =
    steps
      (steps (steps starts (handles (some (manifest 1 long_file)) 5 1000 hears_long))
        (handles (some (avail 2 1 relays (codes "B") [] relays)) 5 1001 hears_later))
      (cycles 1001 1002 ((1, (0, sealed_first) ∷ []) ∷ []) true goes_on)

long_described : long_after.described ≡ some long_file
unfolding fetch new tried_from tries placement generation_of read_map Control.decode_position
    Control.position_from take_answers take_answer hold mark_tried
long_described = rw opened_first refl

long_held : get_or long_after.chunks 0 none ≡ some (1 ∷ [])
unfolding fetch new tried_from tries placement generation_of read_map Control.decode_position
    Control.position_from take_answers take_answer hold mark_tried
long_held = rw opened_first refl

Reachable-WasServed_example :
    (Manifest.validate long_file ≡ ok tt)
    × (length long_after.chunks ≡ long_file.total_chunks)
    × ((content : List ℕ) × WasServed toy_aead key id toy_decoder file_hash to_hex name some
          long_reached 0 content
        × (open_piece toy_aead key id 2 1024 0 content ≡ some (1 ∷ [])))
Reachable-WasServed_example =
    Reachable-WasServed toy_aead key id toy_decoder file_hash to_hex name some 0 long_reached
      long_described long_held

long_fits : length with_long.chunks ≡ upload.total
unfolding new record_placed adopt_ring Upload.new
long_fits = refl

takes_ring : adopted_ring with_long.ring upload.ring ≡ some upload.ring
unfolding adopted_ring new record_placed adopt_ring Upload.new
takes_ring = refl

placement-handle_example :
    (msg : SenderMessage) × (s' : Download) × (due : Bool) × (position : ℕ) × (announcement upload
        relays
      ≡ ok msg)
    × (handle to_hex name some with_long (some (set_counter msg 2)) 5 1001 ≡ ok (s', due))
    × (get_or upload.placed 0 none ≡ some position)
    × (placement s' 0 ≡ some (position, get_or upload.generation 0 0))
placement-handle_example =
    placement-handle to_hex name some with_long {m = long_file} relays 2 5 1001 upload_reached
      upload_small upload_distinct (omega arith) (omega arith) relays_distinct refl long_fits refl
      (omega arith) takes_ring 0 upload_announced
