-- ===== src/Jsonc.antt =====
-- The comments of the publisher's file (jsonc.go).
pub mod Strip
pub mod Comments
mod Tests
