-- ===== src/Nat.antt =====
-- The NAT probes and introductions (nat.go).
pub mod Reply
pub mod Discovery
mod Tests
