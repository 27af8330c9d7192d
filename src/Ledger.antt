-- ===== src/Ledger.antt =====
-- internal/ledger: the event-sourced double-entry ledger. The children follow its files.
pub mod Types
pub mod Amount
pub mod Projection
pub mod Action
pub mod Sync
pub mod Steps
pub mod Totals
pub mod TrialBalance
pub mod Fx
pub mod Requests
pub mod Lifecycle
pub mod Completion
pub mod Races
mod Tests
pub mod Accounts
pub mod Posting
pub mod Balances
