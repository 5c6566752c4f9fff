-- ===== src/Lib.antt =====
-- This library models the core of dex-services, the off-chain services of the Gnosis Protocol
-- exchange, in services-core/src and pricegraph/src, and proves what makes it correct.
--
-- The program. The exchange contract emits events (deposits, withdrawals, orders, trades,
-- solutions). The updating order book fetches them page by page from a node into the event
-- registry, a map sorted by block, and the registry builds the order book state of a batch from
-- them: balances and orders that change when a batch begins. From the state comes the auction of a
-- batch, its canonical form without empty orders and unused balances, which a filter may restrict
-- further. The scheduler decides when the driver solves the auction; the naive solver matches two
-- orders and computes the executed amounts and prices. The history reads past settlements off the
-- registry. The price graph finds cheapest routes between tokens and negative cycles among orders.
-- The submitter sends the driver's solution and says what an error means. The token cache remembers
-- the information of tokens, and finds tokens by symbol or address. Prices of several sources are
-- averaged, or taken from the first source that has one.
--
-- Files, with the sources they model:
--   Prelude, Prelude/*          shared names, Boolean tests, lists, what a filter selects, integers
--   Outcome                     success, an error or a panic, and the rules for them
--   Assoc                       std::collections::HashMap as an association list
--   Util                        services-core/src/util.rs: ceiled_div, as_u128_checked
--   Models/BatchId              services-core/src/models/batch_id.rs
--   Models/Remaining            services-core/src/models/order.rs
--   Models/Solution, Viability  services-core/src/models/solution.rs, account_state.rs
--   Streamed/Balance            services-core/src/orderbook/streamed/balance.rs; Balance/View what a
--                               batch sees, Balance/Ledger the abstract ledger
--   Streamed/Order              services-core/src/orderbook/streamed/order.rs; Order/Usage the used
--                               amounts
--   Streamed/Tokens, Event, State
--                               services-core/src/orderbook/streamed/state.rs: a method of State is
--                               the function of its name, which takes the state first and returns
--                               it changed. State/Invariant and State/Safety* are about panics,
--                               State/Shifts and State/Reversal about trade reversions, State/Clear
--                               about clear
--   Streamed/Auction            the queries of state.rs, services-core/src/orderbook/util.rs and
--                               services-core/src/bigint_u256.rs; Auction/Offer is about what is
--                               offered, Auction/Canonical about the canonical auction
--   Streamed/BlockTimestamps    services-core/src/orderbook/streamed/block_timestamp_reading.rs
--   Streamed/UpdatingOrderbook  services-core/src/orderbook/streamed/updating_orderbook.rs
--   Filtered                    services-core/src/orderbook/filtered_orderbook.rs
--   History/Registry            services-core/src/history/events.rs; Registry/Keys its order,
--                               Registry/Reorg blocks that are fetched again, Registry/Exact the
--                               entries after an update, Registry/Window the events of a batch,
--                               Registry/Auction its auctions
--   History/Settlement          services-core/src/history.rs
--   History/Batches             services-core/src/history/batches.rs
--   PriceFinding/Matching, PriceFinding/NaiveSolver
--                               services-core/src/price_finding/naive_solver.rs; Pairing and Trade
--                               are about a solver without a fee, Fees about one with a fee
--   Driver/Timing, Driver/System
--                               services-core/src/driver/scheduler.rs and scheduler/system.rs
--   Driver/Stablex              services-core/src/driver/stablex_driver.rs
--   Driver/World                the clock, the exchange and the driver as the schedulers see them: a
--                               run records its events
--   Driver/Evm                  services-core/src/driver/scheduler/evm.rs
--   Driver/Background           the background task of scheduler/system.rs
--   Pricegraph/Graph            a weighted graph, as pricegraph/src/graph.rs uses it
--   Pricegraph/Graph/Path       pricegraph/src/graph/path.rs; Path/Cycle is about the search for a
--                               cycle among predecessors
--   Pricegraph/Graph/ShortestPaths
--                               pricegraph/src/graph/shortest_paths.rs, with its stores Unbounded
--                               and Bounded. Walks, Passes, Predecessors and Optimal are about the
--                               unbounded one, Hops, Layers, Within and Overwritten about the other
--   TokenInfo                   services-core/src/token_info.rs: the default methods of the trait
--   TokenInfo/Cached            services-core/src/token_info/cached.rs; Cached/Remembered is about
--                               what is kept, Cached/Complete, Lowest and Search about results
--   PriceEstimation             services-core/src/price_estimation/average_price_source.rs
--   PriceEstimation/Priority    services-core/src/price_estimation/priority_price_source.rs
--   SolutionSubmission          services-core/src/solution_submission.rs; Reported is about
--                               its results, Driven about the driver that submits through it
--   Contracts/SearchBatches     services-core/src/contracts/stablex_contract/search_batches.rs
--
-- Numbers. BigInt is an integer; u16, u32, u64, u128 and U256 are natural numbers. A checked
-- operation tests its bound and a panicking one ends in panic; plain arithmetic on machine words
-- that can overflow wraps as in a release build. Addresses and block hashes are natural numbers.
-- A mutable method takes its value and returns it changed. Sets and hash maps are lists: no
-- theorem depends on their order. The loops over lists are structural. The block search and the
-- iterator over batches run on fuel, and their theorems give enough: the number of blocks, or of
-- batches. The search for a cycle follows predecessors on fuel, where the number of nodes is
-- enough; the loops of the schedulers run on fuel too, where the seconds until a deadline are.
--
-- Parameters. The node (block number, pages of events, block timestamps, batch ids of blocks), the
-- file of the registry, the system time, the floating point fee ratio, and for the driver its price
-- finder, economic viability and exchange are arguments. The schedulers get a world, whose answers
-- may depend on every event so far. The graph has weights of any type with an addition and an order
-- that satisfy the laws of Measure, as floating point numbers other than NaN do. The submission gets
-- the contract, by what its calls return, and the crate transaction_retry, which sends transactions
-- until one ends or it cancels them. The token cache gets the layer under it, whose answers may depend
-- on what was asked before, and the order in which answers to concurrent requests arrive.
--
-- Not modelled: HTTP, JSON and files, logging and metrics, the generated contract bindings, the
-- endless loop that starts the system scheduler's tasks, the stream of gas prices, price estimation
-- by external sources, the tokens on chain, the optimisation solver (an external process) and the
-- floating point orders of the price graph.
pub mod Prelude
pub mod Outcome
pub mod Assoc
pub mod Util
pub mod Models
pub mod Streamed
pub mod Filtered
pub mod History
pub mod PriceFinding
pub mod Pricegraph
pub mod TokenInfo
pub mod PriceEstimation
pub mod SolutionSubmission
pub mod Driver
pub mod Contracts
