-- ===== src/Vm.antt =====
-- The stack machine that runs a transaction's bytes (vm/).
pub mod Value
pub mod Stack
pub mod State
pub mod Machine
mod Tests
