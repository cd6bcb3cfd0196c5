-- ===== src/Core.antt =====
-- Transactions, blocks and the chain (core/), with the keys of crypto/.
pub mod Data
pub mod Platform
pub mod Coding
pub mod Transaction
pub mod Block
pub mod HeaderStore
pub mod Store
pub mod Blockchain
pub mod Demo
mod Tests
