-- ===== src/Transfer/Runs.antt =====
-- Transfers of transfer.rs on concrete data, over the toy cipher and decoder.
use ptransfer_cli.Common.{
  if◌then◌else◌, ap, ◌∙◌, ℕ, ◌+◌, ◌≡◌, ◌⊎◌, refl, List, [], ◌∷◌, map, true, false, none, some,
  replicate, ok, err, arith,
}
use ptransfer_cli.Common.Bytes.{codes}
use ptransfer_cli.Common.Decimal.{decimal, parse_u64}
use ptransfer_cli.Common.Text.{strip_prefix, split_once}
use ptransfer_cli.Crypto.Chunk.{encrypt_chunk, decrypt_chunk, parse_chunk_message}
use ptransfer_cli.Crypto.Aead.{drawn}
use ptransfer_cli.Crypto.Aead.Toy.{toy_aead}
use ptransfer_cli.Wire.{identity}
use ptransfer_cli.Wire.Flate.Toy.{toy_decoder}
use ptransfer_cli.Transfer.{text, Error, ack, parse_done, done_text}
use ptransfer_cli.Transfer.Done.{parse_done-done_text}
use ptransfer_cli.Transfer.Sender.{
  Link, Inbox, closed, taken, send_chunks, send_done, seal_next, run_sender,
}
use ptransfer_cli.Transfer.Receiver.{
  Disk, Files, Receiving, start, receive_loop, receive_done, receive_chunk, open_chunk, check_chunk,
  write_plain, write_rest, run_receiver,
}
use ptransfer_cli.Transfer.Exchange.{IsWorking, deliver}
use ptransfer_cli.Transfer.RoundTrip.{IsSound, run_receiver-run_sender}
use ptransfer_cli.Transfer.Delivery.{
  Untouched, Delivered, loop, is_complete, run_receiver_outcome, run_receiver-part,
}
use ptransfer_cli.Transfer.Limits.{IsLimited, send_chunks_limits}

abbrev key : List ℕ
key = replicate 32 7

abbrev good_disk : Disk
good_disk = record {
  creates = true;
  writes = λ w b. true;
  flushes = true;
  syncs = true;
  renames = true;
  removes = true;
}

good_disk-IsSound : IsSound good_disk
good_disk-IsSound = record {
  creates = refl;
  writes = λ w b. refl;
  flushes = refl;
  syncs = refl;
  renames = refl;
}

abbrev good_link : Link
good_link = record {
  nonce = λ i. drawn (replicate 12 (i + 1));
  delivery = λ i. taken;
  takes_done = true;
  replies = deliver (text ack ∷ []) closed;
}

good_link-IsWorking : IsWorking good_link
good_link-IsWorking = record {
  bytes = λ i. replicate 12 (i + 1);
  draws = λ i. refl;
  nonces = λ i. refl;
  delivers = λ i. refl;
  takes = refl;
}

abbrev no_files : Files
no_files = record { dest = none; part = false }

abbrev hello : List (List ℕ)
hello = codes "hello" ∷ []

run_receiver-run_sender_example :
    (run_receiver toy_decoder good_disk toy_aead key 1000 no_files identity true
        (deliver (run_sender toy_aead key 1000 good_link (map some hello)).0 closed)
      ≡ record {
        files = record { dest = some (codes "hello"); part = false };
        sent = text ack ∷ [];
        result = ok tt;
      })
    × ((run_sender toy_aead key 1000 good_link (map some hello)).1 ≡ ok tt)
run_receiver-run_sender_example =
    run_receiver-run_sender toy_aead key 1000 good_link good_link-IsWorking toy_decoder good_disk
      good_disk-IsSound hello no_files closed closed (omega arith) (omega arith) (omega arith)
      (omega arith) refl

-- What a receiver gets from a sender of `hello`.
abbrev arriving : Inbox
arriving = deliver (run_sender toy_aead key 1000 good_link (map some hello)).0 closed

run_receiver_outcome_example :
    (let r = run_receiver toy_decoder good_disk toy_aead key 1000 no_files identity true arriving in
      Untouched toy_decoder good_disk toy_aead key 1000 no_files r
      ⊎ Delivered toy_decoder good_disk toy_aead key 1000 identity arriving r)
run_receiver_outcome_example =
    run_receiver_outcome toy_decoder good_disk toy_aead key 1000 no_files identity true arriving

abbrev full_disk : Disk
full_disk = record good_disk { syncs = false }

abbrev received_hello : Receiving toy_decoder
received_hello = record {
  inflater = none;
  written = codes "hello";
  received_count = 1;
  received_bytes = 5;
  previous_chunk_len = some 5;
}

arriving_loop :
    receive_loop toy_decoder full_disk toy_aead key 1000 (start toy_decoder identity 1000) arriving
    ≡ ok (received_hello, some (1, 5))
unfolding receive_loop receive_done receive_chunk open_chunk check_chunk write_plain write_rest
    run_sender send_chunks send_done seal_next encrypt_chunk parse_chunk_message decrypt_chunk
    parse_done done_text decimal parse_u64 strip_prefix split_once
arriving_loop = refl

run_receiver-part_example :
    (run_receiver toy_decoder full_disk toy_aead key 1000 no_files identity true
      arriving).files.part
    ≡ (if is_complete toy_decoder full_disk toy_aead key 1000
          (loop toy_decoder full_disk toy_aead key 1000 identity arriving)
        then true
        else false)
run_receiver-part_example =
    run_receiver-part toy_decoder full_disk toy_aead key 1000 no_files identity true arriving refl

-- A sync that fails leaves the `.part` file on a disk that removes files.
keeps_part :
    (run_receiver toy_decoder full_disk toy_aead key 1000 no_files identity true
      arriving).files.part
    ≡ true
keeps_part =
    run_receiver-part toy_decoder full_disk toy_aead key 1000 no_files identity true arriving refl
    ∙ ap (λ o. if is_complete toy_decoder full_disk toy_aead key 1000 o then true else false)
        arriving_loop

send_chunks_limits_example :
    IsLimited 1000 0 0 (send_chunks toy_aead key 1000 good_link (map some hello) 0 0)
send_chunks_limits_example =
    send_chunks_limits toy_aead key 1000 good_link (λ i. refl) (map some hello) 0 0 (omega arith)
      (omega arith)

parse_done-done_text_example : parse_done (done_text 3 17) 1000 ≡ ok (3, 17)
parse_done-done_text_example =
    parse_done-done_text 3 17 1000 (omega arith) (omega arith) (omega arith)

-- Leading zeros pass, a sign does not.
parse_done_runs :
    (parse_done (codes "DONE:007:5") 1000 ≡ ok (7, 5))
    × (parse_done (codes "DONE:+7:5") 1000 ≡ err Error.bad_done)
    × (parse_done (codes "DONE:7:5:1") 1000 ≡ err Error.bad_done)
    × (parse_done (codes "DONE:65537:5") 1000 ≡ err Error.bad_done)
unfolding parse_done parse_u64 strip_prefix split_once
parse_done_runs = (refl, refl, refl, refl)
