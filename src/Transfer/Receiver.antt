-- ===== src/Transfer/Receiver.antt =====
-- `run_receiver` of src/transfer.rs: the loop over the messages, and the fate of the `.part` file.
use ptransfer_cli.Common.{
  ℕ, ◌+◌, ◌-◌, ◌^◌, List, [], ◌∷◌, ◌++◌, Bool, true, false, not, ◌||◌, Option, none, some, ltb, leb,
  ◌==◌, if◌then◌else◌, length, Result, ok, err, ◌>>=◌, ◌>>◌, ensure, with_err,
}
use ptransfer_cli.Crypto.Aead.{Aead}
use ptransfer_cli.Crypto.Chunk.{
  encryption_chunk_size, nonce_len, tag_len, parse_chunk_message, decrypt_chunk,
}
use ptransfer_cli.Wire
use ptransfer_cli.Wire.{WireEncoding, deflate_raw, identity, Inflater}
use ptransfer_cli.Wire.Flate.{Decoder}
use ptransfer_cli.Transfer.{Message, text, binary, Error, parse_done, ack}
use ptransfer_cli.Transfer.Sender.{Inbox, message, closed, silent}

-- What the disk does: whether the file can be created, whether it takes bytes behind the ones it
-- holds, and the last steps.
pub record Disk : Type 0 where
  pub creates : Bool
  pub writes : List ℕ → List ℕ → Bool
  pub flushes : Bool
  pub syncs : Bool
  pub renames : Bool
  pub removes : Bool

-- The destination with its bytes, if it is there, and whether its `.part` file is there.
pub record Files : Type 0 where
  pub dest : Option (List ℕ)
  pub part : Bool

-- How a run ends: the files, the messages sent, and the result.
pub record Received : Type 0 where
  pub files : Files
  pub sent : List Message
  pub result : Result Error (Unit {0})

module _ (d : Decoder) where
  -- The variables of the loop; `written` is what the `.part` file holds.
  pub record Receiving : Type 0 where
    pub inflater : Option (Inflater d)
    pub written : List ℕ
    pub received_count : ℕ
    pub received_bytes : ℕ
    pub previous_chunk_len : Option ℕ

  abbrev pub start_inflater : WireEncoding → ℕ → Option (Inflater d)
  start_inflater deflate_raw max_bytes = some (Wire.new d max_bytes)
  start_inflater identity max_bytes = none

  abbrev pub start : WireEncoding → ℕ → Receiving
  start encoding max_bytes = record {
    inflater = start_inflater encoding max_bytes;
    written = [];
    received_count = 0;
    received_bytes = 0;
    previous_chunk_len = none;
  }

-- `if let Some(previous) = previous_chunk_len && previous != ENCRYPTION_CHUNK_SIZE`
abbrev pub is_short : Option ℕ → Bool
is_short none = false
is_short (some previous) = not (previous == encryption_chunk_size)

module _ (d : Decoder) (disk : Disk) where
  unfoldable pub write_all : List ℕ → List ℕ → Result Error (List ℕ)
  write_all written bytes =
      if disk.writes written bytes then ok (written ++ bytes) else err Error.write_failed

  -- `out.write_all(inflater.push(…)?)` and `out.write_all(inflater.finish()?)`
  unfoldable pub write_inflated :
      List ℕ → Result Wire.Error (Inflater d) → Result Error (Option (Inflater d) × List ℕ)
  unfolding write_all
  write_inflated written inflated = do
    inflater ← with_err inflated Error.inflate_failed
    written ← write_all written inflater.out
    ok (some inflater, written)

  -- The plaintext of a chunk on its way to the file.
  unfoldable pub write_plain :
      Option (Inflater d) → List ℕ → List ℕ → Result Error (Option (Inflater d) × List ℕ)
  unfolding write_all
  write_plain none written plaintext = do written ← write_all written plaintext; ok (none, written)
  write_plain (some inflater) written plaintext =
      write_inflated written (Wire.push d inflater plaintext)

  -- What the inflater still holds at the end.
  unfoldable pub write_rest :
      Option (Inflater d) → List ℕ → Result Error (Option (Inflater d) × List ℕ)
  write_rest none written = ok (none, written)
  write_rest (some inflater) written = write_inflated written (Wire.finish d inflater)

  module _ (aead : Aead) (key : List ℕ) (max_bytes : ℕ) where
    -- The tests on a binary message before it is opened: its index, the sealed bytes, and the length
    -- that its plaintext has to have.
    unfoldable pub check_chunk : Receiving d → List ℕ → Result Error (ℕ × List ℕ × ℕ)
    check_chunk s msg = do
      (index, encrypted) ← with_err (parse_chunk_message msg) Error.bad_chunk_message
      ensure (index == s.received_count) Error.unexpected_index
      ensure (not (is_short s.previous_chunk_len)) Error.short_chunk_inside
      ensure (leb (nonce_len + tag_len) (length encrypted)) Error.bad_chunk_length
      let expect_plain = length encrypted - (nonce_len + tag_len)
      ensure (not (expect_plain == 0 || ltb encryption_chunk_size expect_plain))
          Error.bad_chunk_length
      ensure (length encrypted == expect_plain + nonce_len + tag_len) Error.bad_chunk_length
      ensure (ltb (s.received_bytes + expect_plain) (2 ^ 64)) Error.size_overflow
      ensure (not (ltb max_bytes (s.received_bytes + expect_plain))) Error.size_limit
      ok (index, encrypted, expect_plain)

    -- A chunk that passed the tests: opened, measured, written and counted.
    unfoldable pub open_chunk : Receiving d → ℕ × List ℕ × ℕ → Result Error (Receiving d)
    open_chunk s (index, encrypted, expect_plain) = do
      plaintext ← with_err (decrypt_chunk aead key encrypted index) Error.open_failed
      ensure (length plaintext == expect_plain) Error.bad_chunk_length
      (inflater, written) ← write_plain s.inflater s.written plaintext
      ok record {
        inflater = inflater;
        written = written;
        received_count = s.received_count + 1;
        received_bytes = s.received_bytes + expect_plain;
        previous_chunk_len = some expect_plain;
      }

    unfoldable pub receive_chunk : Receiving d → List ℕ → Result Error (Receiving d)
    receive_chunk s msg = do checked ← check_chunk s msg; open_chunk s checked

    unfoldable pub receive_done : Receiving d → List ℕ → Result Error (Receiving d × ℕ × ℕ)
    receive_done s msg = do
      (final_chunks, final_bytes) ← parse_done msg max_bytes
      ensure (final_chunks == s.received_count) Error.wrong_chunk_count
      ensure (final_bytes == s.received_bytes) Error.wrong_byte_count
      (inflater, written) ← write_rest s.inflater s.written
      ok (record s { inflater = inflater; written = written }, final_chunks, final_bytes)

    -- The loop: up to the trailer, or to the close of the transport (`none`).
    unfoldable pub receive_loop : Receiving d → Inbox → Result Error (Receiving d × Option (ℕ × ℕ))
    receive_loop s closed = ok (s, none)
    receive_loop s silent = err Error.stalled
    receive_loop s (message (text t) rest) = do
      (s', final_chunks, final_bytes) ← receive_done s t
      ok (s', some (final_chunks, final_bytes))
    receive_loop s (message (binary b) rest) = do s' ← receive_chunk s b; receive_loop s' rest

    -- `cleanup`, whose own failure is ignored.
    ends_early : Files → Error → Received
    ends_early files e = record {
      files = record files { part = not disk.removes };
      sent = [];
      result = err e;
    }

    -- After the loop has seen the trailer: the file is flushed, synced and renamed, and only then
    -- acknowledged. An error here returns by `?`, with no cleanup.
    unfoldable pub persist : Files → Bool → List ℕ → Received
    persist files takes_ack written =
        let left : Error → Received =
          λ e. record { files = record files { part = true }; sent = []; result = err e } in
        let placed : Files = record { dest = some written; part = false } in
        if not disk.flushes
        then left Error.flush_failed
        else if not disk.syncs
        then left Error.sync_failed
        else if not disk.renames
        then left Error.rename_failed
        else if takes_ack
        then record { files = placed; sent = text ack ∷ []; result = ok tt }
        else record { files = placed; sent = []; result = err Error.send_failed }

    unfoldable pub after_loop :
        Files → Bool → Result Error (Receiving d × Option (ℕ × ℕ)) → Received
    unfolding ends_early
    after_loop files takes_ack (err e) = ends_early files e
    after_loop files takes_ack (ok (s, none)) = ends_early files Error.closed_before_done
    after_loop files takes_ack (ok (s, some (final_chunks, final_bytes))) =
        if not (s.received_count == final_chunks) || not (s.received_bytes == final_bytes)
        then ends_early files Error.incomplete
        else persist files takes_ack s.written

    -- `takes_ack` says whether the transport takes the acknowledgment.
    unfoldable pub run_receiver : Files → WireEncoding → Bool → Inbox → Received
    run_receiver files encoding takes_ack inbox =
        if disk.creates
        then after_loop files takes_ack (receive_loop (start d encoding max_bytes) inbox)
        else record { files = files; sent = []; result = err Error.create_failed }
