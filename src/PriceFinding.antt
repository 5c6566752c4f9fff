-- ===== src/PriceFinding.antt =====
-- services-core/src/price_finding: the solvers.
pub mod Matching
pub mod NaiveSolver
pub mod Tests
