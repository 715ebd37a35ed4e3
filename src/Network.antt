-- ===== src/Network.antt =====
-- The network layer of the server: bytes and words, messages, the cipher and the checksum.
pub mod Bytes
pub mod Xtea
pub mod Message
pub mod Checksum
pub mod Protocol
