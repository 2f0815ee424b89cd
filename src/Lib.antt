-- ===== src/Lib.antt =====
-- A limit-order matching engine: package by package, its state machines and what they guarantee.
--
-- The program. A gateway (pkg/gateway) validates orders and hands commands to the engine of their
-- symbol (pkg/shard), through an inbound ring (pkg/mpsc). The engine (pkg/engine) takes one command
-- at a time, matches it against its order book (pkg/orderbook), and publishes events to an outbound
-- ring (pkg/offheap).
--
-- The files.
-- - Prelude, Int64, Bits, History: shared names, list lemmas, Go maps as functions, 64-bit arithmetic,
--   math/bits, and the histories of the rings.
-- - Types: pkg/types/types.go.
-- - OrderBook/Search: the standard library's sort.Search; OrderBook/Book: the state of a book, its
--   queries and its sorted price slices; OrderBook/Match: Match and fillLevel; OrderBook/Rest: AddOrder,
--   CancelOrder and Snapshot. Below and beside them stand the invariants and the proofs.
-- - Disruptor: pkg/disruptor/ring_buffer.go, and Disruptor/Refine its refinement of a bounded queue.
-- - Offheap: the events of pkg/offheap/ring.go; Offheap/Ring: the ring that carries them, a call at a
--   time; Offheap/Shared: the same ring an access at a time, for the engine and one reader.
-- - Engine: pkg/engine/engine.go, with pkg/pool/pool.go as the log of what is given back. Below it
--   Events, Log, Numbering and Replay are about what is published, Keeps, Admit, Fok, PostOnly and
--   Returns about the book. Engine/Gives is about what is given back.
--   Engine/Serve is the goroutine of `run`, with the producers of Mpsc/Shared, and Engine/Live that
--   goroutine between both of its rings, with the reader of Offheap/Shared.
-- - Mpsc: pkg/mpsc/ring.go, a call at a time; Mpsc/Shared: its TrySubmit and TryPop an access to
--   shared memory at a time, for any number of producers and the consumer, with the invariant and the
--   proofs below it.
-- - Shard: pkg/shard/manager.go; Shard/Registry: its GetOrCreate an access at a time, for any number
--   of callers; Gateway: pkg/gateway/gateway.go.
-- - Stress: cmd/stress/main.go, the orders of its warm-up, makers and takers, and Stress/Consumer the
--   loop of its consumer; Engine/Quotes is what an engine does with orders like those of the makers
--   and takers. Demo: parts of cmd/engine/main.go.
-- - Histogram: cmd/stress/histogram.go; Sequencer: pkg/sequencer/sequencer.go.
-- - Tests: a small book, small rings and an order, and the theorems applied to them.
--
-- The correspondence. A Go `int64` is its 64-bit pattern, and arithmetic on it wraps (Int64). Prices
-- and quantities that the theorems speak of are not negative. A Go map is a function. A pointer to a
-- price node is the side and price under which the book holds the node, and a list element is named
-- by the id of its order, so the model speaks of books in which no id rests twice, which the
-- invariant `IsBook` states. A trade holds the maker as its fill left it, and the taker is passed
-- beside the trades: no order takes part in a match after its fill is done. `none` stands for a
-- panic, or for fuel that ran out in the loop of Match; its fuel is one round for each price and one
-- more, and every round but the last drops a price.
--
-- `process` publishes to a log of all its events, since no other goroutine sees what it does to the
-- book; Engine/Live pushes what it added to the log into the ring, one event after the other. The
-- counters of the rings wrap at 2 ^ 64. A call of a ring, of the manager or of the gateway is one step
-- that nothing interrupts, but for the inbound ring, the outbound ring and GetOrCreate, of which
-- Mpsc/Shared, Offheap/Shared and Shard/Registry model what happens between the accesses. Those
-- accesses take place one after the other, as Go's atomic operations do, and the models assume that
-- fewer than about 2 ^ 64 commands or events have passed, since their histories count them without
-- wrapping.
--
-- Not modelled: goroutines elsewhere, StopAll and Symbols of the manager, CPU pinning, a failing malloc
-- and the bytes that it is asked for, flags, and the printing of numbers.
-- The wall clock and random numbers are arguments, and `float64` is a parameter of the gateway and of
-- the percentiles.
pub mod Prelude
pub mod Int64
pub mod Bits
pub mod History
pub mod Histogram
pub mod Mpsc
pub mod Shard
pub mod Sequencer
pub mod Gateway
pub mod Types
pub mod OrderBook
pub mod Offheap
pub mod Engine
pub mod Disruptor
pub mod Stress
pub mod Demo
pub mod Tests
