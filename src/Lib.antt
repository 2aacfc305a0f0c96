-- ===== src/Lib.antt =====
-- ptransfer-cli: what the sender and the receiver of a file promise each other.
--
-- The program sends files between two devices: over a WebRTC data channel or a Tor onion stream
-- by the message choreography of src/transfer.rs, and, where no direct route can be made, as
-- encrypted pieces on public Nostr relays (src/code/nostr_file). This library models the parts
-- that carry the program's own logic, by file:
--
--   Common: results, lists over the native numbers, bytes, decimals and texts.
--   Z85: src/code/nostr_file/z85.rs, the text encoding of a piece on a relay.
--   Crypto: src/crypto/chunk.rs and src/crypto/aes.rs, the layout of what is sealed;
--     src/crypto/pin.rs and src/crypto/base32.rs, the codes that people type;
--     src/crypto/kdf.rs and src/crypto/spake2.rs, the key exchange.
--   Wire: the inflater of src/wire.rs.
--   NostrFile: src/code/nostr_file, the constants of mod.rs. Codec is codec.rs, Manifest is
--     manifest.rs and the manifest that `send_over_relays` of upload.rs prepares, Control is
--     the vocabulary of control.rs (Control/Relays its `ControlRelaySet`), Events is
--     events.rs, RelayUrl is relays.rs, RelayCache is relay_cache.rs, Upload is the shared
--     state of upload.rs (Upload/Reader its `read_receiver`), Download is the receiver of
--     download.rs (its state and `handle` in Download, `cycle` in Download/Cycle, `run` in
--     Download/Loop), and Handover the last checks of `cycle`.
--   Tor: the framing of src/tor/wire.rs, over the messages of Transfer, and the handshake of
--     src/tor/handshake.rs.
--   Util: src/util.rs, the name under which a received file is saved.
--   Archive: src/archive.rs. Archive/Plan is what a selection is sent as, Archive/Pieces its
--     `ChunkWriter`.
--   Code: src/code. Payload is payload.rs (the payload and its checks in Payload, the PT01
--     container in Payload/Container).
--   Transfer: src/transfer.rs; `run_sender` in Transfer/Sender, `run_receiver` in
--     Transfer/Receiver.
--
-- A byte string and a text are lists of numbers below 256, in Util a text is the list of its
-- characters, a `usize` has 64 bits, and counters that count events stay far below their width,
-- a vector's `reserve` adds just the room it is asked for; machine integers are natural numbers
-- with their checks and wrap-around written out. An operation that can fail returns a Result
-- over an error type of its component, with a constructor for each way of failing that callers
-- can tell apart.
--
-- Code outside the repository is a parameter: AES-256-GCM (Crypto/Aead), the DEFLATE decoder of
-- flate2 (Wire/Flate), the group of P-256 (the interface Curve of Crypto/Spake2), HKDF, the
-- DEFLATE encoder, serde_json, SHA-256 and base64, the URL parser behind `normalize_relay_url`,
-- the random source, the disk and the transport, the last three of these as what they answer at
-- each call. Crypto/Aead/Toy, Wire/Flate/Toy and Crypto/Spake2/Toy are functions that meet the
-- assumptions on the first three, and run the examples.
--
-- The tasks of an upload share one state under a lock; Upload/Invariant gives what each does to
-- it in one hold of the lock as a step, and the steps may come in any order. On the relays a
-- piece is published by Upload, opened by Codec and handed over by Handover; the announcement of
-- Upload is a message that Control checks and Download reads. A clock of Download counts
-- seconds, and what the relays serve in a cycle is an argument, in the order in which they
-- answer; Download/Reached gives the messages and the cycles as steps, in any order.
--
-- A time-out is an event of the transport: a sender's `Delivery` can be `timed_out`, and an
-- `Inbox` can end in silence. The search for a free name in Util runs on counted rounds, of
-- which it takes as many as there are numbered names in the way. The loop of the inflater runs
-- on counted rounds, as many as its input and its room under the cap allow, since a round that
-- goes on reads or writes a byte.
--
-- Not modelled: the terminal interface, command line, Tor and WebRTC plumbing, the relay
-- connections, and the progress display, which are input and output; and, so far, signaling and
-- the discovery of relays on the network.
pub mod Common
pub mod Util
pub mod Archive
pub mod Code
pub mod Z85
pub mod Crypto
pub mod Wire
pub mod NostrFile
pub mod Transfer
pub mod Tor
