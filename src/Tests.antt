-- ===== src/Tests.antt =====
-- Test data, runs of the model, and the theorems at concrete inputs.
mod Data
mod Rotation
mod Leases
mod Decisions
mod Publications
mod Reboots
mod Credentials
mod Migrations
mod Limiter
mod ServerRuns
mod RouterApi
mod Stats
mod ApplyResults
