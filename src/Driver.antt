-- ===== src/Driver.antt =====
-- services-core/src/driver: when the driver solves the auction of a batch.
pub mod Timing
pub mod World
pub mod Evm
pub mod Background
pub mod System
pub mod Stablex
pub mod Tests
