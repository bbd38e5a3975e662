-- ===== src/Wire.antt =====
-- The typed byte buffers of the lobby protocol (bdByteBuffer): services.go, with the readers and
-- writers that matchmaking.go, friends.go, ctr_presence.go, ctr_stats.go and ctr_marketplace.go add.
pub mod Tags
pub mod Writer
pub mod Reader
pub mod RoundTrip
pub mod Varint
pub mod Reply
mod Tests
