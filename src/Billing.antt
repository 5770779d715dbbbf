-- ===== src/Billing.antt =====
-- rust/crates/control-plane/src/billing*.rs: the account-serialized money protocol.
pub mod Types
pub mod Store
pub mod Projection
pub mod Ledger
pub mod Requests
pub mod Reserve
pub mod Lifecycle
pub mod Tracks
pub mod Moves
pub mod Sums
pub mod Consistent
pub mod History
pub mod Outcomes
pub mod Inactive
pub mod Audit
pub mod Tests
