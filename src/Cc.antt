-- ===== src/Cc.antt =====
-- pkg/cc: the concurrency control of chained transactions.
pub mod Partition
pub mod Clock
pub mod Filter
pub mod Origin
pub mod Context
pub mod Executor
pub mod Checkpoint
pub mod Recovery
pub mod Instrumenter
pub mod Manager
