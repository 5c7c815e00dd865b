-- ===== src/Keeper.antt =====
-- services/keeper/src: the service that runs the payout cycle.
pub mod Jobs
pub mod Config
pub mod State
pub mod Ledger
pub mod StepStore
pub mod PgStore
pub mod Quotes
pub mod Purchase
pub mod Amounts
pub mod Pipeline
pub mod Publish
pub mod Steps
pub mod Monitor
pub mod Cycle
pub mod System
pub mod Attest
mod Tests
