-- ===== src/Account.antt =====
-- internal/account: the spend waterfall of an account's purchases.
pub mod Waterfall
pub mod Service
pub mod Purchases
pub mod Bulk
pub mod History
pub mod Calls
mod Tests
