-- ===== src/Examples.antt =====
-- Tests, and the theorems at concrete inputs.
pub mod Sample
pub mod Work
pub mod Dataset
pub mod Mempool
pub mod Feed
pub mod Threads
pub mod Net
pub mod Engine
pub mod Node
pub mod Window
pub mod Cli
