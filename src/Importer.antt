-- ===== src/Importer.antt =====
-- pkg/importer: applying a bundle.
pub mod Manifest
pub mod Invariant
pub mod Preflight
pub mod Compose
pub mod Report
pub mod Budget
pub mod Retry
pub mod Apply
pub mod Driver
pub mod Resolve
pub mod Import
