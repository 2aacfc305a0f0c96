-- ===== src/NostrFile/Upload/Reader.antt =====
-- `read_receiver` of src/code/nostr_file/upload.rs: what the receiver's messages do to the upload.
use ptransfer_cli.Common.{
  ℕ, ◌+◌, max, List, [], ◌∷◌, ◌++◌, Option, none, some, Bool, true, false, not, ◌||◌, leb, ◌==◌,
  if◌then◌else◌, length, set, get_or, Result, ok, err,
}
use ptransfer_cli.NostrFile.Control.Reply
use ptransfer_cli.NostrFile.Control.Reply.{
  ReceiverMessage, hello, acknowledge, done, cancelled, counter_of,
}
use ptransfer_cli.NostrFile.Upload.{Upload, demote, contains, live_relay_demote_misses}

-- What a message of the receiver makes of the transfer.
pub data Verdict : Type 0 where
  running completed peer_cancelled : Verdict
  undeliverable : ℕ → Verdict

abbrev pub is_placed_at : Option ℕ → ℕ → Bool
is_placed_at none position = false
is_placed_at (some p) position = p == position

-- `last_peer_n`, `receiver_pubkey` and `last_peer_at` of an accepted message.
abbrev pub saw_peer : Upload → ReceiverMessage → ℕ → ℕ → Upload
saw_peer u msg pubkey now = record u {
  last_peer_n = counter_of msg;
  receiver_pubkey = some pubkey;
  last_peer_at = some now;
}

abbrev pub is_stale : Upload → ℕ × ℕ × ℕ → Bool
is_stale u (index, position, generation) =
    not (is_placed_at (get_or u.placed index none) position)
    || not (get_or u.generation index 0 == generation)
    || contains index u.pending_retry

-- A miss at a placement that still stands: the relay is charged with it.
unfoldable pub charge : Upload → ℕ → Upload
unfolding demote
charge u position =
    let count = get_or u.misses position 0 + 1 in
    let u' : Upload = record u { misses = set u.misses position count } in
    if leb live_relay_demote_misses count then demote u' position else u'

abbrev pub queue_retry : Upload → ℕ → Upload
queue_retry u index = record u {
  pending_retry = index ∷ u.pending_retry;
  retry_queue = u.retry_queue ++ index ∷ [];
}

-- The loop over `missing`.
unfoldable pub read_missing : Upload → List (ℕ × ℕ × ℕ) → Upload × Verdict
unfolding charge
read_missing u [] = (u, running)
read_missing u ((index, position, generation) ∷ missing) =
    let u' = charge u position in
    let skipped = read_missing u missing in
    let queued = read_missing (queue_retry u' index) missing in
    if is_stale u (index, position, generation)
    then skipped
    else if leb u'.max_retransmits (get_or u'.generation index 0)
    then (u', undeliverable index)
    else queued

unfoldable pub read_message : Upload → ReceiverMessage → Upload × Verdict
read_message u (hello n) = (record u { avail_dirty = true }, running)
read_message u (acknowledge n heard have missing) =
    read_missing (record u { receiver_have = max u.receiver_have have }) missing
read_message u (done n) = (u, completed)
read_message u (cancelled n) = (u, peer_cancelled)

abbrev pub is_pinned_elsewhere : Option ℕ → ℕ → Bool
is_pinned_elsewhere none pubkey = false
is_pinned_elsewhere (some pinned) pubkey = not (pinned == pubkey)

abbrev pub is_accepted : {E : Type 0} → Result E (Unit {0}) → Bool
is_accepted (ok t) = true
is_accepted (err e) = false

-- A message after the end, of another identity than the first, one that does not fit the transfer,
-- or a replay.
abbrev pub is_ignored : Upload → ReceiverMessage → ℕ → Bool
is_ignored u msg pubkey =
    u.finished
    || is_pinned_elsewhere u.receiver_pubkey pubkey
    || not (is_accepted (Reply.validate msg u.total (length u.ring)))
    || leb (counter_of msg) u.last_peer_n

-- One message of `read_receiver`, from an identity that is not the sender's own.
unfoldable pub read_receiver : Upload → ReceiverMessage → ℕ → ℕ → Upload × Verdict
read_receiver u msg pubkey now =
    if is_ignored u msg pubkey then (u, running) else read_message (saw_peer u msg pubkey now) msg
