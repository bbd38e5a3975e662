-- ===== src/Relay.antt =====
-- The UDP relay (ctr_relay.go).
pub mod Address
pub mod Table
pub mod Ports
mod Tests
