-- ===== src/Rewards.antt =====
-- What an account earns by playing (ctr_rewards.go, ctr_refresh.go, ctr_challenge_rules.go).
pub mod Races
pub mod Replay
pub mod Credit
pub mod Refresh
pub mod Daily
pub mod Again
pub mod Challenges
pub mod Tallies
pub mod Achieved
mod Tests
