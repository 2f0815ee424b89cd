-- ===== src/OrderBook.antt =====
-- pkg/orderbook/orderbook.go: the price-time priority book of one symbol.
pub mod Search
pub mod Book
pub mod Match
pub mod Rest
pub mod Valid
pub mod Invariant
pub mod Priority
