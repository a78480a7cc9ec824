-- ===== src/Examples.antt =====
-- The theorems at concrete inputs.
mod Host
mod Wire
pub mod Values
pub mod Stores
pub mod Conditions
pub mod Frames
pub mod Tokens
pub mod Sessions
pub mod Queries
pub mod Parses
pub mod Connections
pub mod Clients
