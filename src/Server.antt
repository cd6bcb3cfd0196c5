-- ===== src/Server.antt =====
-- The node (server/): its pool of transactions, and what it does with transactions and blocks.
pub mod Decode
pub mod TxOrderedMap
pub mod TxPool
pub mod Node
pub mod Setup
pub mod Peers
mod Tests
