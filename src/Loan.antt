-- ===== src/Loan.antt =====
-- internal/loan: the amortisation of loans.
pub mod Amortize
pub mod Documents
pub mod Fields
pub mod Evaluators
pub mod State
pub mod Types
pub mod Pricing
pub mod Underwriting
pub mod Service
pub mod Servicing
pub mod Tick
pub mod Calls
mod Tests
