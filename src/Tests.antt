-- ===== src/Tests.antt =====
-- Runs on small inputs, which apply the theorems of the other modules where their conditions hold.
mod Skiplists
mod Logs
mod Tables
mod Compactions
mod Fixtures
mod Engines
mod Histories
