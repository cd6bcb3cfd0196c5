-- ===== src/Types.antt =====
-- The shared types of the repository (types/).
pub mod Hash
pub mod Address
pub mod GoList
mod Tests
