-- ===== src/Economy.antt =====
-- Wallets and purchases (ctr_economy.go).
pub mod Account
pub mod Purchase
pub mod Inventory
pub mod Requests
pub mod Market
pub mod Orders
pub mod Wallets
mod Tests
