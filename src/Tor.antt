-- ===== src/Tor.antt =====
-- src/tor: what the onion transport does to the bytes of a conversation.
pub mod Wire
pub mod Handshake
