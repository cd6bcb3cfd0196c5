-- ===== src/Core/Tests.antt =====
-- Runs of the core on the concrete libraries of Core/Demo, and the theorems at these runs.
mod Scenario
mod Signing
mod Failures
mod Chain
mod Index
