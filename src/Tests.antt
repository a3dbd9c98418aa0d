-- ===== src/Tests.antt =====
-- Concrete runs of the theorems, and tests of the definitions that they rest on.
mod Fixtures
mod Amounts
mod Transfers
mod Swaps
mod Deposits
mod Revokes
mod Grants
mod Sdk
mod Tasks
mod Access
mod Startup
mod Routes
