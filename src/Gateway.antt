-- ===== src/Gateway.antt =====
-- rust/crates/gateway/src: the state that the gateway keeps in memory, and what it asks of the
-- control plane.
pub mod Outbox
pub mod Usage
pub mod Admission
pub mod Stream
pub mod Traffic
mod Tests
