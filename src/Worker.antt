-- ===== src/Worker.antt =====
-- rust/crates/control-plane/src/event_worker.rs: the consumer of the account events.
pub mod Batch
pub mod Backoff
pub mod Jobs
pub mod Complete
pub mod Completed
pub mod Changes
pub mod Moves
pub mod Claims
pub mod Histories
pub mod Failures
pub mod Retries
pub mod Acknowledged
pub mod Rising
pub mod Fencing
pub mod Round
pub mod Progress
mod Tests
