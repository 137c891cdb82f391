-- ===== src/Blockflow.antt =====
-- src/blockflow.rs: the block-flow telemetry, read from the node's replies.
pub mod Reply
pub mod Histogram
pub mod Sealed
pub mod Recent
pub mod Tip
