-- ===== src/Lib.antt =====
-- The core of the market maker (market_maker/ of the repository): what it keeps of the grid, which
-- orders it asks for, how it sends them, and when it stops trading.
--
-- A price update reaches the position manager, which asks its strategy for actions and marks the
-- slots of new orders as pending. The order executor sends the actions to the exchange, and the
-- manager applies the results to the slots. The exchange's order updates come back to the manager,
-- which releases slots, records fills and tells its listeners. The circuit breaker stops the
-- strategy after losses. The grid engine puts the same together with a strategy and a slot manager
-- of its own: on a price it asks, executes, applies the results and saves the slots. The reconciler
-- compares the manager's slots with the exchange's orders and position, and corrects the slots or
-- opens the breaker; the cleaner cancels orders that are old or too many.
--
-- The files, with the code that each is about:
--   Common             the library's names, Go's integers, and Go maps as association lists
--   Num                the decimal and floating-point numbers as parameters, with their laws, and a
--                      model of the laws, integers that count tenths, on which examples run
--   Pb                 market_maker/internal/pb and market_maker/pkg/pbu/helpers.go: messages,
--                      decimal conversion, client order identifiers
--   TradingUtils       market_maker/pkg/tradingutils/math.go
--   Risk               market_maker/internal/risk: CircuitBreaker circuit_breaker.go, Cleaner cleaner.go,
--                      Reconciler reconciler.go, Monitor and SymbolStats monitor.go
--   Position           market_maker/internal/trading/position/manager.go: State holds the manager,
--                      Slots its creation, snapshots and cancellations, Updates OnOrderUpdate with its
--                      handlers, Results CalculateAdjustments and ApplyActionResults, Sync ForceSync
--                      and RestoreFromExchangePosition
--   Grid               market_maker/internal/trading/grid/strategy.go, and in Grid/Slots slot_manager.go
--                      beside it
--   Strategy           market_maker/internal/trading/strategy/grid.go; Orders holds its parameters
--                      and orders
--   Execution          market_maker/internal/trading/execution
--   Engine             market_maker/internal/engine/gridengine/engine.go, with the slot manager of
--                      Grid/Slots
--   Executor           market_maker/internal/trading/order/executor.go
--   Retry              market_maker/pkg/retry/retry.go
--   Safety             market_maker/internal/safety/checker.go
--   Portfolio          market_maker/internal/trading/portfolio/allocator.go
--   Arbitrage          market_maker/internal/trading/arbitrage: Legs leg_manager.go, Strategy
--                      strategy.go and spread.go
--
-- Functions and fields have the names of the Go code in snake case; a loop is a function over the list
-- that it runs through, and its body a function of its own. A Go map is an association list: the
-- order of its entries stands for the order of `range`, so that a theorem about all lists is one
-- about all orders. Slots are shared by pointer, so the managers hold a store of slots and the maps
-- hold addresses. The clock, the exchange, the rate limiter, the strategy of the position manager
-- and, for its clients, the risk monitor are arguments. An error is a value; a panic of
-- RestoreFromExchangePosition or of GridStrategy is `none`.
--
-- Retries are recursion on the number of attempts left, maxRetries - attempt, after which the code
-- gives up. Numbers are printed with 20 digits of room, and an int64 has 19 at most. Durations and
-- identifiers are unbounded integers, apart from the breaker's counter of losses, which wraps as an
-- int64 does. Decimals are exact in Add, Sub and Neg; what a theorem uses of rounding and division is
-- named among its hypotheses.
--
-- Not modelled: locks and goroutines, since each method is taken as one step, apart from the write
-- lock of the risk monitor's mutex, which Reset and broadcastAlert take, and the grid engine's mutex
-- when a task never runs; telemetry and logging; the length of a retry's delay; the exchange
-- adapters, the other engines, the rest of arbitrage and of the portfolio, and the servers.
pub mod Arbitrage
pub mod Common
pub mod Num
pub mod Pb
pub mod Risk
pub mod TradingUtils
pub mod Portfolio
pub mod Position
pub mod Grid
pub mod Safety
pub mod Strategy
pub mod Engine
pub mod Execution
pub mod Executor
pub mod Retry
