-- ===== src/Tests.antt =====
-- Runs of the model at concrete inputs, and the instances of the theorems.
mod Open
mod Data
mod Scenario
mod Snapshots
mod Runs
mod Registry
mod Leases
mod Lease
