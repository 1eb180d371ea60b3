-- ===== src/Queue.antt =====
-- diskqueue.go, reader.go: the queue's methods, each one under the queue's lock. What the methods do
-- to wake waiting goroutines is not modelled: a wake-up changes no other state.
pub mod Options
pub mod Batch
pub mod Reader
pub mod Peek
pub mod Span
pub mod Emptied
pub mod Count
pub mod Tally
pub mod Group
pub mod Sync
pub mod Blocking
