-- ===== src/Pricegraph.antt =====
-- pricegraph/src: the graph of the order book's tokens.
pub mod Graph
