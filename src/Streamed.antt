-- ===== src/Streamed.antt =====
-- services-core/src/orderbook/streamed: the order book that is rebuilt from contract events.
pub mod Balance
pub mod Order
pub mod Tokens
pub mod Event
pub mod State
pub mod Auction
pub mod BlockTimestamps
pub mod UpdatingOrderbook
pub mod Tests
