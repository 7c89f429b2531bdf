-- ===== src/Diff.antt =====
-- pkg/diff: the domain types and contracts that exporter and importer share.
pub mod Types
pub mod Errors
pub mod Plan
pub mod Sidecar
pub mod Classify
pub mod Specs
