-- ===== src/Billing/History.antt =====
-- What every transaction of the money protocol preserves, for predicates of the database that its
-- single writes preserve.
pub mod Writes
pub mod Projections
pub mod Actions
pub mod Lifecycle
pub mod DoubleEntry
pub mod Outbox
