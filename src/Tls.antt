-- ===== src/Tls.antt =====
-- tasks/tls13-crypto-handshake-engine: records, the key schedule and the handshake.
pub mod Record
pub mod Hkdf
pub mod Handshake
mod Examples
