-- ===== src/Gates.antt =====
-- Who may play, and whose friend an id is (gates.go, accountlookup.go).
pub mod Admission
pub mod Lookup
pub mod Proven
pub mod Remembered
mod Tests
