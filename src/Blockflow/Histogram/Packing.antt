-- ===== src/Blockflow/Histogram/Packing.antt =====
-- src/blockflow.rs, `packed_pending_blocks`: the packing loop.
pub mod Invariant
pub mod Pending
pub mod Fees
