-- ===== src/Domain.antt =====
-- rust/crates/domain.
pub mod Money
pub mod Catalog
pub mod Keys
pub mod Routing
mod Tests
