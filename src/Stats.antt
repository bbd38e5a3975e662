-- ===== src/Stats.antt =====
-- CTR's leaderboards (ctr_stats.go).
pub mod Types
pub mod Parse
pub mod Store
pub mod Handler
pub mod Best
pub mod Ranks
pub mod Order
pub mod Owners
mod Tests
