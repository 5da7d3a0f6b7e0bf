-- ===== src/Tests.antt =====
-- Runs of the model at concrete inputs, and the theorems applied to them.
mod Samples
mod Money
mod Registries
mod Retries
mod Service
mod Runs
mod Access
mod Providers
mod Routes
mod Scripts
