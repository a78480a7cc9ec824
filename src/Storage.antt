-- ===== src/Storage.antt =====
-- internal/storage: tables in memory, a write-ahead log, snapshots and transactions.
pub mod Table
pub mod Wal
pub mod Frame
pub mod Engine
pub mod Recovery
pub mod Checkpoint
pub mod Durable
pub mod Operations
pub mod Txn
pub mod Commit
pub mod Scenarios
