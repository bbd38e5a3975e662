-- ===== src/Matchmaker.antt =====
-- CTR's asynchronous matchmaking (service 145): ctr_async.go and ctr_merge.go.
pub mod Types
pub mod Rooms
pub mod Parse
pub mod Enqueue
pub mod Leave
pub mod Merge
pub mod Sync
pub mod Invariant
pub mod Occupancy
pub mod Acceptance
pub mod Reach
pub mod Departure
pub mod Access
pub mod Notices
mod Tests
