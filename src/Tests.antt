-- ===== src/Tests.antt =====
-- A small book and its orders, on which the theorems are run, with the runs themselves below.
pub mod Books
mod Matching
mod Cancelling
mod Rings
mod Latency
mod Inbound
mod Entry
mod Engines
mod Sharing
mod Serving
mod Publishing
mod Counting
mod Living
mod Racing
mod Stressing
mod Printing
