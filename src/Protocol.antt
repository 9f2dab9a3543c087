-- ===== src/Protocol.antt =====
-- internal/protocol: wire format, codes and keys, link cipher and handshake.
pub mod Message
pub mod Order
pub mod Crypto
pub mod Seal
pub mod Code
pub mod Link
pub mod Frame
pub mod Conn
