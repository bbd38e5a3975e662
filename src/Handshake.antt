-- ===== src/Handshake.antt =====
-- The handshake of a connection and its encrypted messages (handshake.go, bdcrypto.go).
pub mod Crypto
pub mod Keys
pub mod Frames
pub mod Framing
pub mod Ticket
pub mod Found
pub mod Messages
pub mod Delivery
pub mod Identity
pub mod Auth
pub mod Matching
pub mod Known
pub mod Entry
pub mod Trust
mod Tests
