-- ===== src/Proto.antt =====
-- The protobuf messages of the economy's tasks (ctr_marketplace.go, ctr_rewards.go, ctr_refresh.go): the
-- fields that are written, and the loops that read them back.
pub mod Outcome
pub mod Fields
pub mod Read
pub mod Written
pub mod Ends
pub mod Balances
pub mod Requests
pub mod Asked
pub mod Amounts
pub mod Replied
pub mod Names
pub mod Events
pub mod Reports
mod Tests
