-- ===== src/Models.antt =====
-- services-core/src/models
pub mod BatchId
pub mod Solution
pub mod Remaining
pub mod Viability
pub mod Tests
