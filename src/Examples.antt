-- ===== src/Examples.antt =====
-- The theorems at concrete inputs.
pub mod Data
mod Access
mod Work
mod Agents
mod Storage
mod Snapshots
mod Verdicts
