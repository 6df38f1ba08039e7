-- ===== src/Examples.antt =====
-- A small fund, runs of the ledger on it, and the theorems at it.
pub mod Data
mod Runs
mod Pure
mod Answers
pub mod Claims
pub mod Months
mod Rates
mod Retiring
