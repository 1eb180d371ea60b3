-- ===== src/Store.antt =====
-- store.go: the segment store that the queue drives under its lock.
pub mod State
pub mod Action
pub mod Os
pub mod Files
pub mod Segments
pub mod Block
pub mod Append
pub mod Ledger
pub mod Commit
pub mod Walk
pub mod Clean
pub mod Consume
pub mod Quiet
pub mod Meets
pub mod Log
