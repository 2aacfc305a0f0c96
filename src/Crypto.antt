-- ===== src/Crypto.antt =====
-- src/crypto: the sealing of chunks and messages.
pub mod Aead
pub mod Aes
pub mod Base32
pub mod Chunk
pub mod Pin
pub mod Kdf
pub mod Spake2
