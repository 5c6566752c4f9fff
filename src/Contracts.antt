-- ===== src/Contracts.antt =====
-- services-core/src/contracts: reading the exchange contract.
pub mod SearchBatches
pub mod Tests
