-- ===== src/Payments.antt =====
-- rust/crates/payments.
pub mod Amount
mod Tests
