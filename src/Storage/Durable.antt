-- ===== src/Storage/Durable.antt =====
-- On the writes and Open of internal/storage: the tables in memory and the log.
pub mod Strip
pub mod Replay
pub mod Writes
pub mod Ops
pub mod Runs
pub mod Recovered
