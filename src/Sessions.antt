-- ===== src/Sessions.antt =====
-- Public games: service 21 (matchmaking.go).
pub mod Types
pub mod Store
pub mod Handler
pub mod Isolation
pub mod Listing
mod Tests
