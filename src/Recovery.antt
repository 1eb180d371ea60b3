-- ===== src/Recovery.antt =====
-- recovery.go: opening a directory of segments.
pub mod Names
pub mod FileName
pub mod Frames
pub mod Probe
pub mod Walk
pub mod Count
pub mod Drop
pub mod Segment
pub mod Trusted
pub mod Bounds
pub mod Silence
pub mod Delete
pub mod Load
