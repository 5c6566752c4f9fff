-- ===== src/History.antt =====
-- services-core/src/history: the indexed events of the exchange.
pub mod Registry
pub mod Settlement
pub mod Tests
pub mod Batches
