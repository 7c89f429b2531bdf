-- ===== src/Examples.antt =====
-- Each theorem at a concrete input.
mod Fixtures
mod Layers
mod Pools
mod Bundles
mod Options
mod Serves
mod Admission
mod Errors
mod Retries
mod Imports
mod Archives
mod Baselines
mod Deltas
mod Specs
