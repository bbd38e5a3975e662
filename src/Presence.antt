-- ===== src/Presence.antt =====
-- Who is online, and what others see of them (friends.go, presence.go, ctr_presence.go).
pub mod Table
pub mod Lookup
pub mod Service
pub mod Shown
pub mod Maps
pub mod Refines
mod Tests
